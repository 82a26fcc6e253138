-- ===== src/Device.antt =====
-- Driver/F1/driver.c: devices, which are opened on a peripheral and then read and written through
-- the driver of the peripheral. A notification is a function pointer, 0 for NULL.
pub mod Notify
mod Tests
use stm32_os.Common.{
  ℕ, Bool, true, false, List, ◌∷◌, ◌&&◌, ◌||◌, not, ◌==◌, if◌then◌else◌, nonzero, update,
}

pub data ExeState : Type 0 where
  exe_success exe_para_error exe_dev_busying exe_dev_error exe_unknown_error : ExeState

pub data Request : Type 0 where
  uninit init read write read_asyn write_asyn : Request

abbrev pub is_success : ExeState → Bool
is_success ExeState.exe_success = true
is_success _ = false

-- DEVICE_UART_ID
abbrev pub device_uart_id : ℕ
device_uart_id = 0xFEFEFE30

-- The fields of a DRIVER_STRUCT, of a DRIVER_PERIPHERAL and of a DRIVER_DMA_CHANNEL are functions
-- of its address. `Hardware` is what the drivers of the peripherals change.
pub record Devices (Hardware : Type 0) : Type 0 where
  pub mode : ℕ → ℕ
  pub peripheral_ptr : ℕ → ℕ
  pub complete_notify : ℕ → ℕ  -- translate_complete_notify
  pub error_notify : ℕ → ℕ  -- translate_error_notify
  pub dma_channel_rx : ℕ → ℕ
  pub dma_channel_tx : ℕ → ℕ
  pub channel_complete : ℕ → ℕ  -- translate_complete_notify of a channel
  pub channel_error : ℕ → ℕ  -- translate_error_notify of a channel
  pub hardware : Hardware
  pub notified : List ℕ  -- the calls of notifications, the last one first

-- `peripheral_driver` is the driver of the peripheral at an address, with its arguments `buff`,
-- `size` and `request`.
module _ (Hardware : Type 0)
    (peripheral_driver : ℕ → ℕ → ℕ → Request → Hardware → ExeState × Hardware) where
  -- Where an operation returns EXE_PARA_ERROR.
  abbrev pub not_open : ℕ → Devices Hardware → Bool
  not_open device s = (device == 0) || (s.peripheral_ptr device == 0)

  -- A call of the driver, and of a notification that is not NULL.
  abbrev pub drive :
      (device buff size : ℕ) → Request → Devices Hardware → ExeState × Devices Hardware
  drive device buff size request s =
      let (state, h) = peripheral_driver (s.peripheral_ptr device) buff size request s.hardware in
      (state, record s { hardware = h })

  abbrev pub notify : ℕ → Devices Hardware → Devices Hardware
  notify func s = if nonzero func then record s { notified = func ∷ s.notified } else s

  pub driver_open : (device peripheral mode : ℕ) → Devices Hardware → ExeState × Devices Hardware
  driver_open device peripheral mode s =
      if (device == 0) || (peripheral == 0) then (ExeState.exe_para_error, s) else (
        ExeState.exe_success,
        record s {
          peripheral_ptr = update s.peripheral_ptr device peripheral;
          mode = update s.mode device mode;
          complete_notify = update s.complete_notify device 0;
          error_notify = update s.error_notify device 0;
        },
      )

  -- The peripheral stays the device's.
  pub driver_close : (device : ℕ) → Devices Hardware → ExeState × Devices Hardware
  driver_close device s =
      let (state, s1) = drive device 0 0 Request.uninit s in
      if not_open device s then (ExeState.exe_para_error, s) else (
        state,
        record s1 {
          complete_notify = update s1.complete_notify device 0;
          error_notify = update s1.error_notify device 0;
        },
      )

  pub driver_func_set : (device complete error : ℕ) → Devices Hardware → ExeState × Devices Hardware
  driver_func_set device complete error s =
      if not_open device s then (ExeState.exe_para_error, s) else (
        ExeState.exe_success,
        record s {
          complete_notify =
              if nonzero complete
              then update s.complete_notify device complete
              else s.complete_notify;
          error_notify =
              if nonzero error then update s.error_notify device error else s.error_notify;
        },
      )

  pub driver_func_clear :
      (device complete_clear error_clear : ℕ) → Devices Hardware → ExeState × Devices Hardware
  driver_func_clear device complete_clear error_clear s =
      if not_open device s then (ExeState.exe_para_error, s) else (
        ExeState.exe_success,
        record s {
          complete_notify =
              if nonzero complete_clear
              then update s.complete_notify device 0
              else s.complete_notify;
          error_notify =
              if nonzero error_clear then update s.error_notify device 0 else s.error_notify;
        },
      )

  -- What `driver_read` and `driver_write` have in common. Where the transfer succeeds and there is
  -- no notification for that, the one for an error is called.
  abbrev pub transfer :
      Request → (device buff size : ℕ) → Devices Hardware → ExeState × Devices Hardware
  transfer request device buff size s =
      let (state, s1) = drive device buff size request s in
      if not_open device s
      then (ExeState.exe_para_error, s)
      else if is_success state && nonzero (s1.complete_notify device)
      then (state, notify (s1.complete_notify device) s1)
      else (state, notify (s1.error_notify device) s1)

  pub driver_read : (device buff size : ℕ) → Devices Hardware → ExeState × Devices Hardware
  driver_read device buff size s = transfer Request.read device buff size s

  pub driver_write : (device buff size : ℕ) → Devices Hardware → ExeState × Devices Hardware
  driver_write device buff size s = transfer Request.write device buff size s

  -- The notifications go to the channel, whose interrupt calls them.
  abbrev pub start_transfer :
      Request → (channel device buff size : ℕ) → Devices Hardware → ExeState × Devices Hardware
  start_transfer request channel device buff size s =
      let s1 = record s {
        channel_complete = update s.channel_complete channel (s.complete_notify device);
        channel_error = update s.channel_error channel (s.error_notify device);
      } in
      let (state, s2) = drive device buff size request s1 in
      if not_open device s
      then (ExeState.exe_para_error, s)
      else if not (is_success state)
      then (state, notify (s2.error_notify device) s2)
      else (state, s2)

  pub driver_read_asyn : (device buff size : ℕ) → Devices Hardware → ExeState × Devices Hardware
  driver_read_asyn device buff size s =
      let channel = s.dma_channel_rx (s.peripheral_ptr device) in
      start_transfer Request.read_asyn channel device buff size s

  pub driver_write_asyn : (device buff size : ℕ) → Devices Hardware → ExeState × Devices Hardware
  driver_write_asyn device buff size s =
      let channel = s.dma_channel_tx (s.peripheral_ptr device) in
      start_transfer Request.write_asyn channel device buff size s
