-- ===== src/Bus/I2c.antt =====
-- Driver/driver_I2C.c: the driver of the two-wire bus. The bits of CR1 for the acknowledgement,
-- those of CR2 for the DMA, and the registers that INIT sets are never read, and not modelled.
pub mod Sent
mod Tests
use stm32_os.Common.{
  ℕ, zero, suc, ◌+◌, ◌-◌, ◌%◌, ◌^◌, Bool, true, false, List, ◌∷◌, not, ◌==◌, ◌&&◌, ◌||◌,
  if◌then◌else◌, leb, nonzero, update,
}
use stm32_os.Device.{Request}
use stm32_os.Peripheral.{Peripheral, DriverState, is_io_error, is_success, is_busying}
use stm32_os.Bus.{Event, Bus, put, delay}

-- DEVICE_I2C_ID
abbrev pub device_i2c_id : ℕ
device_i2c_id = 0xFEFEFE10

-- The bus and the calls of the notifications of the peripheral, with the functions' addresses.
pub record I2c : Type 0 where
  pub bus : Bus
  pub notified : List ℕ

-- A step of a transfer, after which it goes on or ends with an error.
abbrev pub Step : Type 0
Step = Bus → Bool × Bus

infixr 20 ◌then_do◌
abbrev pub ◌then_do◌ : Step → Step → Step
(f then_do g) s = let (ok, s1) = f s in if ok then g s1 else (false, s1)

-- `status` gives what each read of SR1 reads, and `data` what each read of DR reads.
module _ (status data_register : ℕ → ℕ) where
  -- DELAY for bit `unit` of SR1. Where `clears`, SR1 is read once more and written after it.
  abbrev pub await : (unit : ℕ) (clears : Bool) → Step
  await unit clears s =
      let (ok, s1) = delay status 0x10000 unit s in
      (ok, if ok && clears then record s1 { reads = s1.reads + 1 } else s1)

  abbrev pub send : ℕ → Step
  send n s = (true, put (Event.byte n) s)

  abbrev pub set_start : Step
  set_start s = (true, put Event.start s)

  abbrev pub set_stop : Bus → Bus
  set_stop s = put Event.stop s

  -- START and the first byte of the buffer, the address of the device.
  pub address : (buffer : ℕ) → Step
  address buffer s =
      (set_start then_do await 0x01 true then_do send (s.memory buffer) then_do await 0x02 false) s

  -- START again after the register's address, the second byte; `again` is the address for reading.
  pub address_again : (buffer again : ℕ) → Step
  address_again buffer again s =
      (send (s.memory (buffer + 1))
          then_do await 0x04 true
          then_do set_start
          then_do await 0x01 false
          then_do send again
          then_do await 0x02 false)
        s

  -- The bytes `at`, `at + 1` and so on of the buffer are sent, until one is not taken.
  pub send_bytes : (count : ℕ) (at : ℕ) → Step
  send_bytes zero at s = (true, s)
  send_bytes (suc count) at s =
      let (ok, s1) = (send (s.memory at) then_do await 0x04 true) s in
      let rest = send_bytes count (at + 1) s1 in if ok then rest else (false, s1)

  -- Bytes are received, until one does not come.
  pub receive_bytes : (count : ℕ) (at : ℕ) → Step
  receive_bytes zero at s = (true, s)
  receive_bytes (suc count) at s =
      let (ok, s1) = await 0x04 false s in
      let s2 = record s1 {
        memory = update s1.memory at (data_register s1.received % 256);
        received = s1.received + 1;
      } in
      let rest = receive_bytes count (at + 1) s2 in if ok then rest else (false, s1)

  abbrev pub with_status : Peripheral → DriverState → Peripheral
  with_status p state = record p { peripheral_status = state }

  -- The case READ. Once the device has answered, the status is SUCCESS, whether the bytes come or
  -- not.
  pub i2c_read : Peripheral × Bus → Peripheral × Bus
  i2c_read (p, s) =
      let b = p.peripheral_buffer in
      let (ok, s1) = (address b then_do address_again b (s.memory b) then_do await 0x04 true) s in
      let (all, s2) = receive_bytes p.peripheral_operate_bytes b s1 in
      if ok
      then (with_status p DriverState.success, set_stop s2)
      else (with_status p DriverState.io_error, s1)

  -- The case WRITE. With two bytes or less the status stays BUSYING.
  pub i2c_write : Peripheral × Bus → Peripheral × Bus
  i2c_write (p, s) =
      let (ok, s1) = address p.peripheral_buffer s in
      let (sent, s2) = send_bytes (p.peripheral_operate_bytes - 1) (p.peripheral_buffer + 1) s1 in
      if leb p.peripheral_operate_bytes 2
      then (with_status p DriverState.io_busying, s)
      else if ok
      then (with_status p (if sent then DriverState.success else DriverState.io_error), set_stop s2)
      else (with_status p DriverState.io_error, s1)

  -- READ_ASYN and WRITE_ASYN, where `dma_driver` is the driver of the DMA. The second byte is the
  -- address of the register; for writing the bytes behind the first one are left to the DMA.
  module _ (dma_driver : Peripheral × Bus → Peripheral × Bus) where
    pub i2c_read_asyn : Peripheral × Bus → Peripheral × Bus
    i2c_read_asyn (p, s) =
        let b = p.peripheral_buffer in
        let (ok, s1) = (address b then_do address_again b (s.memory b + 1)) s in
        if ok
        then dma_driver (with_status p DriverState.io_busying, s1)
        else (with_status p DriverState.io_error, s1)

    pub i2c_write_asyn : Peripheral × Bus → Peripheral × Bus
    i2c_write_asyn (p, s) =
        let (ok, s1) = address p.peripheral_buffer s in
        if leb p.peripheral_operate_bytes 2
        then (with_status p DriverState.io_busying, s)
        else if ok
        then dma_driver (
          record p {
            peripheral_status = DriverState.io_busying;
            peripheral_buffer = p.peripheral_buffer + 1;
            peripheral_operate_bytes = p.peripheral_operate_bytes - 1;
          },
          s1,
        )
        else (with_status p DriverState.io_error, s1)

    -- The switch over the request. `dr` is the address of the register DR.
    pub i2c_request : (dr : ℕ) → Peripheral × Bus → Peripheral × Bus
    i2c_request dr (p, s) = elim p.peripheral_request [
      | Request.read ↦ i2c_read (p, s)
      | Request.write ↦ i2c_write (p, s)
      | Request.read_asyn ↦ i2c_read_asyn (p, s)
      | Request.write_asyn ↦ i2c_write_asyn (p, s)
      | Request.init ↦
          (record p { peripheral_data_reg_ptr = dr; peripheral_status = DriverState.success }, s)
      | Request.uninit ↦ (with_status p DriverState.success, s)
    ]

    -- The notification for how the request ended.
    abbrev pub notify : Peripheral → List ℕ → List ℕ
    notify p calls =
        if is_io_error p.peripheral_status && nonzero p.peripheral_error_notify
        then p.peripheral_error_notify ∷ calls
        else if is_success p.peripheral_status && nonzero p.peripheral_complete_notify
        then p.peripheral_complete_notify ∷ calls
        else calls

    pub i2c_driver : (dr : ℕ) → Peripheral × I2c → Peripheral × I2c
    i2c_driver dr (p, s) =
        let (p1, bus) = i2c_request dr (p, s.bus) in
        if not (p.peripheral_id == device_i2c_id) || is_busying p.peripheral_status
        then (p, s)
        else (p1, record { bus = bus; notified = notify p1 s.notified })
