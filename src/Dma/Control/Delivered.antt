-- ===== src/Dma/Control/Delivered.antt =====
-- A transfer for a peripheral, from its start to the status and the notifications at its end.
use stm32_os.Common.{ℕ, ◌*◌, ◌/◌, ◌%◌, ◌^◌, ◌≡◌, Bool, ◌==◌, if◌then◌else◌, update}
use stm32_os.Peripheral.{Peripheral, DriverState}
use stm32_os.Dma.Stream.Idle.{copying}
use stm32_os.Dma.Channel.Told.{asyn, asyn_control}
use stm32_os.Dma.Control.{Control, call, set_status, dma_driver, dma1_channel_irq_handler}

-- The state while the transfer of the peripheral at `ptr` runs on `channel`.
abbrev pub under_way : (ptr channel : ℕ) (is_write : Bool) → Control → Control
under_way ptr channel is_write s =
    let p = s.peripheral ptr in
    set_status ptr DriverState.io_busying (record s {
      registers =
          copying (s.reg_base channel) (asyn_control is_write) p.peripheral_operate_bytes
            p.peripheral_data_reg_ptr p.peripheral_buffer s.registers;
      channel_request = update s.channel_request channel (asyn is_write);
      channel_status = update s.channel_status channel DriverState.io_busying;
      used_peripheral = update s.used_peripheral channel ptr;
    })

-- A transfer for the peripheral at `ptr` on channel `k`: while it runs the peripheral is BUSYING;
-- the interrupt of the channel sets its status, notifies first for the peripheral and then for the
-- channel, and gives the channel back.
pub record Delivered (dma_channel : ℕ → ℕ) (stale ptr src dest size k isr : ℕ) (is_write : Bool)
    (s : Control) : Type 0 where
  pub running : Control
  pub started : dma_driver dma_channel stale ptr src dest size s ≡ (DriverState.io_busying, running)
  pub waiting : (running.peripheral ptr).peripheral_status ≡ DriverState.io_busying
  pub control :
      running.registers.control (s.reg_base (dma_channel k)) ≡ (if is_write then 0x9B else 0x8B)
  pub count :
      running.registers.count (s.reg_base (dma_channel k))
      ≡ (s.peripheral ptr).peripheral_operate_bytes
  pub peripheral :
      running.registers.peripheral (s.reg_base (dma_channel k))
      ≡ (s.peripheral ptr).peripheral_data_reg_ptr
  pub memory :
      running.registers.memory (s.reg_base (dma_channel k)) ≡ (s.peripheral ptr).peripheral_buffer
  pub ended :
      (let after = dma1_channel_irq_handler dma_channel stale k isr running in
        let success = isr / (0x02 * 2 ^ (4 * k)) % 2 == 1 in
        let channel = dma_channel k in
        let p = s.peripheral ptr in
        ((after.peripheral ptr).peripheral_status
          ≡ (if success then DriverState.success else DriverState.io_error))
        × (after.used_peripheral channel ≡ 0)
        × (after.notified ≡ (
            if success
            then call
                (s.complete_notify channel)
                channel
                (call p.peripheral_complete_notify ptr s.notified)
            else call
                (s.error_notify channel)
                channel
                (call p.peripheral_error_notify ptr s.notified))))
