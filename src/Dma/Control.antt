-- ===== src/Dma/Control.antt =====
-- Driver/driver_DMA.c: channels that keep the state of their transfer and the peripheral that uses
-- them, whose status they set.
pub mod Delivered
mod Tests
use stm32_os.Common.{
  ℕ, zero, suc, ◌+◌, ◌*◌, ◌/◌, ◌%◌, ◌^◌, Bool, true, false, List, ◌∷◌, ◌&&◌, ◌||◌, not, ◌==◌,
  if◌then◌else◌, nonzero, update,
}
use stm32_os.Device.{Request}
use stm32_os.Peripheral.{Peripheral, DriverState, is_io_error, is_busying}
use stm32_os.Dma.{Registers, start}
use stm32_os.Dma.Channel.{dma_channel_number, channel_number}

-- A call of a notification with its argument.
abbrev pub Call : Type 0
Call = ℕ × ℕ

-- The fields of a channel and the peripherals are functions of their addresses.
pub record Control : Type 0 where
  pub registers : Registers
  pub reg_base : ℕ → ℕ
  pub channel_request : ℕ → Request
  pub channel_status : ℕ → DriverState
  pub used_peripheral : ℕ → ℕ
  pub complete_notify : ℕ → ℕ  -- translate_complete_notify
  pub error_notify : ℕ → ℕ  -- translate_error_notify
  pub peripheral : ℕ → Peripheral
  pub cleared : List ℕ  -- what was written to IFCR, the last one first
  pub notified : List Call  -- the calls of notifications, the last one first

abbrev pub call : (func argument : ℕ) → List Call → List Call
call func argument calls = if nonzero func then (func, argument) ∷ calls else calls

abbrev pub set_status : (ptr : ℕ) → DriverState → Control → Control
set_status ptr status s = record s {
  peripheral = update s.peripheral ptr (record (s.peripheral ptr) { peripheral_status = status });
}

-- A transfer that is started on a channel, up to the test of its addresses: whether it runs.
abbrev pub begin :
    (channel control count peripheral memory : ℕ) → Request → Control → Bool × Control
begin channel control count peripheral memory request s =
    let (started, registers) =
      start (s.reg_base channel) control count peripheral memory s.registers in
    let status = if started then DriverState.io_busying else DriverState.io_error in
    (
      started,
      record s {
        registers = registers;
        channel_request = update s.channel_request channel request;
        channel_status = update s.channel_status channel status;
      },
    )

-- The cases READ_ASYN and WRITE_ASYN, for the peripheral at `ptr`.
abbrev pub serve : (ptr channel control : ℕ) → Request → Control → Control
serve ptr channel control request s =
    let p = s.peripheral ptr in
    let (started, s1) =
      begin channel control p.peripheral_operate_bytes p.peripheral_data_reg_ptr p.peripheral_buffer
        request s in
    if started
    then set_status ptr DriverState.io_busying
        (record s1 { used_peripheral = update s1.used_peripheral channel ptr })
    else set_status ptr DriverState.io_error s1

abbrev pub mark : (channel : ℕ) → DriverState → Control → Control
mark channel status s = record s { channel_status = update s.channel_status channel status }

-- The end of the driver, with what it returns: a channel in error is stopped, and the error is
-- reported to the channel and to the peripheral that uses it.
pub conclude : (ptr channel : ℕ) → Control → DriverState × Control
conclude ptr channel s =
    let used = s.used_peripheral channel in
    let calls = call (s.error_notify channel) channel s.notified in
    let error_notify = (s.peripheral used).peripheral_error_notify in
    if is_io_error (s.channel_status channel)
    then (
      s.channel_status channel,
      record s {
        registers = record (s.registers) {
          control = update s.registers.control (s.reg_base channel) 0;
        };
        notified = if nonzero used then call error_notify ptr calls else calls;
        used_peripheral = update s.used_peripheral channel 0;
      },
    )
    else (s.channel_status channel, s)

-- `dma_channel` gives the address of each channel of `dma1`, and `stale` is what the local variable
-- channel_ptr holds before it is set.
module _ (dma_channel : ℕ → ℕ) (stale : ℕ) where
  -- The search for a free channel, with what channel_ptr holds after it, and the transfer that is
  -- tried on the free channel.
  pub search_channel : (count number : ℕ) (src dest size : ℕ) → Control → Bool × ℕ × Control
  search_channel zero number src dest size s = (false, stale, s)
  search_channel (suc count) number src dest size s =
      let later = search_channel count (number + 1) src dest size s in
      let channel = dma_channel number in
      let (started, s1) = begin channel 0x40CA size src dest Request.read_asyn s in
      if not (is_busying (s.channel_status channel))
      then (started, channel, record s1 { used_peripheral = update s1.used_peripheral channel 0 })
      else later

  pub dma_driver : (ptr src dest size : ℕ) → Control → DriverState × Control
  dma_driver ptr src dest size s =
      let (started, channel, s1) = search_channel dma_channel_number 0 src dest size s in
      let p = s.peripheral ptr in
      if ptr == 0
      then (if started then (DriverState.success, s1) else (
        DriverState.io_error,
        record s1 { notified = call (s1.error_notify channel) channel s1.notified },
      ))
      else elim p.peripheral_request [
        | Request.read_asyn ↦
            conclude ptr p.dma_channel_rx (serve ptr p.dma_channel_rx 0x8A Request.read_asyn s)
        | Request.write_asyn ↦
            conclude ptr p.dma_channel_tx (serve ptr p.dma_channel_tx 0x9A Request.write_asyn s)
        | Request.init ↦ conclude ptr stale (mark stale DriverState.success s)
        | Request.uninit ↦ conclude ptr stale (mark stale DriverState.success s)
        | Request.read ↦ conclude ptr stale (mark stale DriverState.io_error s)
        | Request.write ↦ conclude ptr stale (mark stale DriverState.io_error s)
      ]

  -- DMA1_init, for the first `count` channels. `channel1` is the address of the registers of the
  -- first one.
  pub dma1_init : (channel1 count : ℕ) → Control → Control
  dma1_init channel1 zero s = s
  dma1_init channel1 (suc count) s =
      let before = dma1_init channel1 count s in
      let channel = dma_channel count in
      record before {
        reg_base = update before.reg_base channel (channel1 + count * 20);
        channel_status = update before.channel_status channel DriverState.io_error;
        channel_request = update before.channel_request channel Request.uninit;
        used_peripheral = update before.used_peripheral channel 0;
        complete_notify = update before.complete_notify channel 0;
        error_notify = update before.error_notify channel 0;
      }

  -- The channel is stopped and its state is `status`, as is that of the peripheral that uses it.
  -- The peripheral's notification is called before the channel's.
  abbrev pub finish : (channel_ptr func : ℕ) → (Peripheral → ℕ) → DriverState → Control → Control
  finish channel_ptr func of_peripheral status s =
      let used = s.used_peripheral channel_ptr in
      let marked = mark channel_ptr status s in
      let told =
        if nonzero used
        then record (set_status used status marked) {
          notified = call (of_peripheral (s.peripheral used)) used s.notified;
        }
        else marked in
      record told {
        registers = record (s.registers) {
          control = update s.registers.control (s.reg_base channel_ptr) 0;
        };
        notified = call func channel_ptr told.notified;
        used_peripheral = update s.used_peripheral channel_ptr 0;
      }

  -- `isr` is what the register ISR reads.
  pub dma1_irq_handler : (channel_ptr isr : ℕ) → Control → Control
  dma1_irq_handler channel_ptr isr s =
      let unit = 2 ^ (4 * channel_number dma_channel dma_channel_number 0 channel_ptr) in
      if isr / (0x02 * unit) % 2 == 1
      then finish channel_ptr (s.complete_notify channel_ptr) (λ p. p.peripheral_complete_notify)
          DriverState.success
          (record s { cleared = 0x02 * unit ∷ 0x01 * unit ∷ 0x04 * unit ∷ s.cleared })
      else finish channel_ptr (s.error_notify channel_ptr) (λ p. p.peripheral_error_notify)
          DriverState.io_error
          (record s { cleared = 0x08 * unit ∷ 0x01 * unit ∷ 0x04 * unit ∷ s.cleared })

  -- The interrupts of the channels, DMA1_Channel1_IRQHandler for number 0 and so on.
  pub dma1_channel_irq_handler : (number isr : ℕ) → Control → Control
  dma1_channel_irq_handler number isr s = dma1_irq_handler (dma_channel number) isr s
