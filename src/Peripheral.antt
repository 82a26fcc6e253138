-- ===== src/Peripheral.antt =====
-- Driver/driver.h and Driver/driver.c: the peripherals, and the transfers that are asked of the
-- driver of a peripheral.
pub mod Outcome
use stm32_os.Common.{ℕ, ◌≡◌, Bool, true, false, ◌==◌, if◌then◌else◌, not}
use stm32_os.Device.{Request}

-- DRIVER_STATE
pub data DriverState : Type 0 where
  io_error io_busying success : DriverState

abbrev pub is_io_error : DriverState → Bool
is_io_error DriverState.io_error = true
is_io_error _ = false

abbrev pub is_success : DriverState → Bool
is_success DriverState.success = true
is_success _ = false

abbrev pub is_busying : DriverState → Bool
is_busying DriverState.io_busying = true
is_busying _ = false

-- DEVICE_FLASH_ID
abbrev pub device_flash_id : ℕ
device_flash_id = 0xFEFEFEF0

-- DRIVER_PERIPHERAL, without its name and its driver. Pointers and functions are their addresses.
pub record Peripheral : Type 0 where
  pub peripheral_id : ℕ
  pub peripheral_request : Request
  pub peripheral_status : DriverState
  pub peripheral_operate_bytes : ℕ
  pub peripheral_buffer : ℕ
  pub peripheral_memory_buffer : ℕ
  pub peripheral_memory_size : ℕ
  pub peripheral_data_reg_ptr : ℕ
  pub mode : ℕ
  pub speed : ℕ
  pub reg_base : ℕ
  pub dma_channel_rx : ℕ
  pub dma_channel_tx : ℕ
  pub peripheral_complete_notify : ℕ
  pub peripheral_error_notify : ℕ

-- The fields that a transfer sets before the driver is called. Only the flash takes an address.
unfoldable pub ask : Request → (buffer address size : ℕ) → Peripheral → Peripheral
ask request buffer address size p = record p {
  peripheral_buffer = buffer;
  peripheral_operate_bytes = size;
  peripheral_data_reg_ptr =
      if p.peripheral_id == device_flash_id then address else p.peripheral_data_reg_ptr;
  peripheral_request = request;
  peripheral_status = DriverState.io_error;
}

-- `World` is what the drivers change besides the peripheral, and `peripheral_driver` the driver of
-- the peripheral.
module _ (World : Type 0) (peripheral_driver : Peripheral × World → Peripheral × World) where
  -- The second call of the driver, where the first one failed.
  abbrev pub shut_down : Peripheral × World → Peripheral × World
  shut_down (p, w) = peripheral_driver (
    record p { peripheral_request = Request.uninit; peripheral_status = DriverState.io_error },
    w,
  )

  abbrev pub returned : Peripheral × World → DriverState × Peripheral × World
  returned (p, w) = (p.peripheral_status, p, w)

  unfoldable pub driver_read :
      (memory_buffer src size : ℕ) → Peripheral × World → DriverState × Peripheral × World
  driver_read memory_buffer src size (p, w) =
      let (p1, w1) = peripheral_driver (ask Request.read memory_buffer src size p, w) in
      returned (if is_io_error p1.peripheral_status then shut_down (p1, w1) else (p1, w1))

  unfoldable pub driver_write :
      (memory_src_buffer dest size : ℕ) → Peripheral × World → DriverState × Peripheral × World
  driver_write memory_src_buffer dest size (p, w) =
      let (p1, w1) = peripheral_driver (ask Request.write memory_src_buffer dest size p, w) in
      returned (if not (is_success p1.peripheral_status) then shut_down (p1, w1) else (p1, w1))

  -- `ptr` is the address of the peripheral.
  pub driver_read_asyn :
      (ptr memory_buffer src size : ℕ) → Peripheral × World → DriverState × Peripheral × World
  driver_read_asyn ptr memory_buffer src size (p, w) =
      let (p1, w1) = peripheral_driver (ask Request.read_asyn memory_buffer src size p, w) in
      if ptr == 0
      then (DriverState.io_error, p, w)
      else returned (if is_io_error p1.peripheral_status then shut_down (p1, w1) else (p1, w1))

  -- A transfer that the driver has started, with the status BUSYING, is taken for a failed one.
  pub driver_write_asyn :
      (ptr memory_src_buffer dest size : ℕ) → Peripheral × World → DriverState × Peripheral × World
  driver_write_asyn ptr memory_src_buffer dest size (p, w) =
      let (p1, w1) = peripheral_driver (ask Request.write_asyn memory_src_buffer dest size p, w) in
      if ptr == 0
      then (DriverState.io_error, p, w)
      else returned (if not (is_success p1.peripheral_status) then shut_down (p1, w1) else (p1, w1))
