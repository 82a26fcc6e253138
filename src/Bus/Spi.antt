-- ===== src/Bus/Spi.antt =====
-- Driver/F1/driver_SPI.c: the driver of the SPI, on the bus and on the channels of the DMA. What
-- INIT writes to SR is not modelled.
pub mod Exchange
mod Tests
use stm32_os.Common.{
  ℕ, zero, suc, ◌+◌, ◌-◌, ◌*◌, ◌/◌, ◌%◌, Bool, true, false, not, ◌==◌, if◌then◌else◌, update,
}
use stm32_os.Device.{ExeState, Request, is_success}
use stm32_os.Dma.Channel.{Channels, Peripheral, dma_peripheral_driver}
use stm32_os.Bus.{Event, Bus, put, delay}

-- DEVICE_SPI_ID
abbrev pub device_spi_id : ℕ
device_spi_id = 0xFEFEFE20

-- The bus, the control registers, the fields of the peripheral, and the channels of the DMA.
pub record Spi : Type 0 where
  pub bus : Bus
  pub cr1 : ℕ
  pub cr2 : ℕ
  pub peripheral : Peripheral
  pub dma : Channels

-- Bit 0x40 of CR1 is set, or cleared.
abbrev pub enable : ℕ → ℕ
enable cr1 = if cr1 / 0x40 % 2 == 1 then cr1 else cr1 + 0x40

abbrev pub disable : ℕ → ℕ
disable cr1 = if cr1 / 0x40 % 2 == 1 then cr1 - 0x40 else cr1

abbrev pub outcome : Bool → ExeState
outcome ok = if ok then ExeState.exe_success else ExeState.exe_dev_error

-- `status` gives what each read of SR reads, and `data_register` what each read of DR reads.
module _ (status data_register : ℕ → ℕ) where
  -- The loop of the case READ: for each byte 0xFF is sent.
  pub read_bytes : (size buff : ℕ) → Bus → Bool × Bus
  read_bytes zero buff s = (true, s)
  read_bytes (suc size) buff s =
      let (free, s1) = delay status 0x1000 0x02 s in
      let sent = put (Event.byte 0xFF) s1 in
      let (come, s2) = delay status 0x1000 0x01 sent in
      let taken = record s2 {
        memory = update s2.memory buff (data_register s2.received % 256);
        received = s2.received + 1;
      } in
      let rest = read_bytes size (buff + 1) taken in
      if not free then (false, s1) else if come then rest else (false, s2)

  -- The loop of the case WRITE.
  pub write_bytes : (size buff : ℕ) → Bus → Bool × Bus
  write_bytes zero buff s = (true, s)
  write_bytes (suc size) buff s =
      let (free, s1) = delay status 0x200 0x02 s in
      let rest = write_bytes size (buff + 1) (put (Event.byte (s1.memory buff)) s1) in
      if free then rest else (false, s1)

  -- `ptr` is the address of the peripheral, `id` its number, and `dr` the address of DR. Reading by
  -- the DMA is writing and reading the same bytes.
  pub spi_driver : (ptr id dr buff size : ℕ) → Request → Spi → ExeState × Spi
  spi_driver ptr id dr buff size request s =
      let enabled = record s { cr1 = enable s.cr1 } in
      let asyn = record enabled { cr2 = 0x03 } in
      let (read, read_bus) = read_bytes size buff s.bus in
      let (wrote, write_bus) = write_bytes size buff s.bus in
      let (written, dma1) =
        dma_peripheral_driver ptr s.peripheral buff size Request.write_asyn s.dma in
      let (answer, dma2) =
        dma_peripheral_driver ptr s.peripheral buff size Request.read_asyn dma1 in
      if not (id == device_spi_id) then (ExeState.exe_para_error, s) else elim request [
        | Request.read_asyn ↦
            if is_success written
            then (answer, record asyn { dma = dma2 })
            else (ExeState.exe_dev_error, record asyn { dma = dma1 })
        | Request.read ↦ (outcome read, record enabled { bus = read_bus })
        | Request.write ↦ (outcome wrote, record enabled { bus = write_bus })
        | Request.write_asyn ↦ (written, record asyn { dma = dma1 })
        | Request.init ↦ (
          ExeState.exe_success,
          record s {
            peripheral = record (s.peripheral) { peripheral_data_reg_ptr = dr };
            cr2 = 0x40;
            cr1 = 0x200 + 0x100 + 0x04 + 0x38;
          },
        )
        | Request.uninit ↦ (ExeState.exe_success, s)
      ]

  -- The three bits for the speed, an enumerator below 8, are set, with the SPI disabled, if it is
  -- not busy.
  pub spi_init : (id speed : ℕ) → Spi → ExeState × Spi
  spi_init id speed s =
      let read = record s { bus = record (s.bus) { reads = s.bus.reads + 1 } } in
      let cr1 = disable s.cr1 in
      if not (id == device_spi_id)
      then (ExeState.exe_para_error, s)
      else if status s.bus.reads / 0x80 % 2 == 1
      then (ExeState.exe_dev_busying, read)
      else (ExeState.exe_success, record read { cr1 = cr1 - cr1 / 8 % 8 * 8 + speed % 8 * 8 })
