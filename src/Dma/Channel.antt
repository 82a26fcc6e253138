-- ===== src/Dma/Channel.antt =====
-- Driver/F1/driver_DMA.c: one controller with seven channels, whose interrupts call the
-- notifications of the channel.
pub mod Told
use stm32_os.Common.{
  ℕ, zero, suc, ◌+◌, ◌*◌, ◌/◌, ◌%◌, ◌^◌, Bool, true, false, List, ◌∷◌, ◌&&◌, ◌||◌, not, ◌==◌,
  if◌then◌else◌, nonzero, update,
}
use stm32_os.Device.{ExeState, Request}
use stm32_os.Dma.{Registers, enabled, start}

-- DMA_CHANNEL_NUMBER
abbrev pub dma_channel_number : ℕ
dma_channel_number = 7

-- Of a peripheral the driver uses these fields.
pub record Peripheral : Type 0 where
  pub peripheral_data_reg_ptr : ℕ
  pub dma_channel_rx : ℕ
  pub dma_channel_tx : ℕ

-- The fields of a channel are functions of its address. `dma1` owns all channels.
pub record Channels : Type 0 where
  pub registers : Registers
  pub reg_base : ℕ → ℕ
  pub complete_notify : ℕ → ℕ  -- translate_complete_notify
  pub error_notify : ℕ → ℕ  -- translate_error_notify
  pub cleared : List ℕ  -- what was written to IFCR, the last one first
  pub notified : List ℕ  -- the calls of notifications, the last one first

-- A transfer on the channel at `channel_ptr`.
abbrev pub transfer :
    (channel_ptr control count peripheral memory : ℕ) → Channels → ExeState × Channels
transfer channel_ptr control count peripheral memory s =
    let at = s.reg_base channel_ptr in
    let (started, registers) = start at control count peripheral memory s.registers in
    if enabled s.registers at then (ExeState.exe_dev_busying, s) else (
      if started then ExeState.exe_success else ExeState.exe_unknown_error,
      record s { registers = registers },
    )

-- `ptr` is the address of the peripheral.
pub dma_peripheral_driver :
    (ptr : ℕ) → Peripheral → (src size : ℕ) → Request → Channels → ExeState × Channels
dma_peripheral_driver ptr p src size request s =
    if (size == 0) || (src == 0) || (ptr == 0) || (p.peripheral_data_reg_ptr == 0)
    then (ExeState.exe_para_error, s)
    else elim request [
      | Request.read_asyn ↦ transfer p.dma_channel_rx 0x8A size p.peripheral_data_reg_ptr src s
      | Request.write_asyn ↦ transfer p.dma_channel_tx 0x9A size p.peripheral_data_reg_ptr src s
      | Request.init ↦ (ExeState.exe_success, s)
      | Request.uninit ↦ (ExeState.exe_success, s)
      | Request.read ↦ (ExeState.exe_para_error, s)
      | Request.write ↦ (ExeState.exe_para_error, s)
    ]

-- `dma_channel` gives the address of each channel of `dma1`.
module _ (dma_channel : ℕ → ℕ) where
  -- DMA1_init, for the first `count` channels. `channel1` is the address of the registers of the
  -- first one.
  pub dma1_init : (channel1 count : ℕ) → Channels → Channels
  dma1_init channel1 zero s = s
  dma1_init channel1 (suc count) s =
      let before = dma1_init channel1 count s in
      let channel = dma_channel count in
      record before {
        reg_base = update before.reg_base channel (channel1 + count * 20);
        complete_notify = update before.complete_notify channel 0;
        error_notify = update before.error_notify channel 0;
      }

  -- The number of the channel at `channel_ptr`, or 7.
  pub channel_number : (count number channel_ptr : ℕ) → ℕ
  channel_number zero number channel_ptr = number
  channel_number (suc count) number channel_ptr =
      let later = channel_number count (number + 1) channel_ptr in
      if channel_ptr == dma_channel number then number else later

  -- `isr` is what the register ISR reads.
  pub dma1_irq_handler : (channel_ptr isr : ℕ) → Channels → Channels
  dma1_irq_handler channel_ptr isr s =
      let unit = 2 ^ (4 * channel_number dma_channel_number 0 channel_ptr) in
      let at = s.reg_base channel_ptr in
      let complete = s.complete_notify channel_ptr in
      let error = s.error_notify channel_ptr in
      let stopped = record s {
        registers = record (s.registers) { control = update s.registers.control at 0 };
      } in
      if isr / (0x02 * unit) % 2 == 1
      then record stopped {
        cleared = 0x02 * unit ∷ 0x01 * unit ∷ 0x04 * unit ∷ s.cleared;
        notified = if nonzero complete then complete ∷ s.notified else s.notified;
      }
      else record stopped {
        cleared = 0x08 * unit ∷ 0x01 * unit ∷ 0x04 * unit ∷ s.cleared;
        notified = if nonzero error then error ∷ s.notified else s.notified;
      }

  -- The interrupts of the channels, DMA1_Channel1_IRQHandler for number 0 and so on.
  pub dma1_channel_irq_handler : (number isr : ℕ) → Channels → Channels
  dma1_channel_irq_handler number isr s = dma1_irq_handler (dma_channel number) isr s
