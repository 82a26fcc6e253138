-- ===== src/Dma/Channel/Told.antt =====
-- A transfer on a channel, from its start to the notification by its interrupt.
use stm32_os.Common.{
  ℕ, zero, suc, ◌+◌, ◌*◌, ◌/◌, ◌%◌, ◌^◌, ◌≤◌, ◌<◌, ◌≡◌, ◌≢◌, inl, inr, Bool, true, false, ◌==◌,
  if◌then◌else◌, arith, refl, ap, Bool-cases, ==-true, ==-false,
}
use stm32_os.Device.{ExeState, Request}
use stm32_os.Dma.{Registers, enabled}
use stm32_os.Dma.Stream.{call}
use stm32_os.Dma.Stream.Idle.{copying, start-copying}
use stm32_os.Dma.Channel.{
  Peripheral, Channels, dma_channel_number, dma_peripheral_driver, dma1_init, channel_number,
  dma1_irq_handler, dma1_channel_irq_handler,
}

-- The seven channels have addresses of their own.
abbrev pub Distinct : (ℕ → ℕ) → Type 0
Distinct dma_channel = (j k : ℕ) → j < 7 → k < 7 → dma_channel j ≡ dma_channel k → j ≡ k

module _ (dma_channel : ℕ → ℕ) (distinct : Distinct dma_channel) where
  pub channel_number-channel :
      (count number k : ℕ)
      → number ≤ k
      → k < number + count
      → number + count ≤ 7
      → channel_number dma_channel count number (dma_channel k) ≡ k
  unfolding channel_number
  channel_number-channel zero number k low high small = omega arith
  channel_number-channel (suc count) number k low high small =
      elim (Bool-cases (dma_channel k == dma_channel number)) [
        | inl e ↦
            let same = distinct k number (omega arith) (omega arith) (ground arith) in
            rw e (omega arith)
        | inr e ↦
            let other : number ≢ k = λ f. ground (arith, ap dma_channel f) in
            rw e (
              channel_number-channel count (number + 1) k (ground arith) (omega arith)
                (omega arith))
      ]

  -- DMA1_init gives each channel its registers, of 20 bytes, and no notification.
  pub dma1_init-channel :
      (channel1 count k : ℕ) (s : Channels)
      → k < count
      → count ≤ 7
      → (let s1 = dma1_init dma_channel channel1 count s in
          (s1.reg_base (dma_channel k) ≡ channel1 + k * 20)
          × (s1.complete_notify (dma_channel k) ≡ 0)
          × (s1.error_notify (dma_channel k) ≡ 0))
  unfolding dma1_init
  dma1_init-channel channel1 zero k s small few = omega arith
  dma1_init-channel channel1 (suc count) k s small few = elim (Bool-cases (count == k)) [
    | inl e ↦
        let at : count ≡ k = ground arith in
        let same = ap dma_channel at in
        rw (==-true (dma_channel count) (dma_channel k) same) (ground arith, refl, refl)
    | inr e ↦
        let other : ¬ (dma_channel count ≡ dma_channel k) =
          λ f. ground (arith, distinct count k (omega arith) (omega arith) f) in
        rw (==-false (dma_channel count) (dma_channel k) other)
          (dma1_init-channel channel1 count k s (ground arith) (omega arith))
  ]

-- The registers that READ_ASYN and WRITE_ASYN put in.
abbrev pub asyn : (is_write : Bool) → Request
asyn is_write = if is_write then Request.write_asyn else Request.read_asyn

abbrev pub asyn_control : (is_write : Bool) → ℕ
asyn_control is_write = if is_write then 0x9A else 0x8A

-- A transfer between `src` and a peripheral is started on channel `k`; its interrupt stops the
-- channel, clears the flags of this channel, and calls the notification for success or error.
pub record Told (dma_channel : ℕ → ℕ) (ptr : ℕ) (p : Peripheral) (src size k isr : ℕ)
    (is_write : Bool) (s : Channels) : Type 0 where
  pub running : Channels
  pub started :
      dma_peripheral_driver ptr p src size (asyn is_write) s ≡ (ExeState.exe_success, running)
  pub programmed :
      running.registers
      ≡ copying
          (s.reg_base (dma_channel k))
          (asyn_control is_write)
          size
          p.peripheral_data_reg_ptr
          src
          s.registers
  pub busy : enabled running.registers (s.reg_base (dma_channel k)) ≡ true
  pub stopped :
      enabled
        (dma1_channel_irq_handler dma_channel k isr running).registers
        (s.reg_base (dma_channel k))
      ≡ false
  pub notified :
      (dma1_channel_irq_handler dma_channel k isr running).notified
      ≡ call
          (if isr / (0x02 * 2 ^ (4 * k)) % 2 == 1
            then s.complete_notify (dma_channel k)
            else s.error_notify (dma_channel k))
          s.notified

driver-started :
    (ptr : ℕ) (p : Peripheral) (src size channel : ℕ) (is_write : Bool) (s : Channels)
    → (if is_write then p.dma_channel_tx else p.dma_channel_rx) ≡ channel
    → ptr ≢ 0
    → src ≢ 0
    → size ≢ 0
    → p.peripheral_data_reg_ptr ≢ 0
    → enabled s.registers (s.reg_base channel) ≡ false
    → dma_peripheral_driver ptr p src size (asyn is_write) s ≡ (
      ExeState.exe_success,
      record s {
        registers =
            copying
              (s.reg_base channel)
              (asyn_control is_write)
              size
              p.peripheral_data_reg_ptr
              src
              s.registers;
      },
    )
unfolding dma_peripheral_driver
driver-started ptr p src size channel true s at np ns nz nd idle =
    let begun =
      start-copying (s.reg_base channel) 0x9A size p.peripheral_data_reg_ptr src s.registers nd
        ns in
    rw
      (
        ==-false size 0 nz,
        ==-false src 0 ns,
        ==-false ptr 0 np,
        ==-false p.peripheral_data_reg_ptr 0 nd,
        at,
        idle,
        begun,
      )
      refl
driver-started ptr p src size channel false s at np ns nz nd idle =
    let begun =
      start-copying (s.reg_base channel) 0x8A size p.peripheral_data_reg_ptr src s.registers nd
        ns in
    rw
      (
        ==-false size 0 nz,
        ==-false src 0 ns,
        ==-false ptr 0 np,
        ==-false p.peripheral_data_reg_ptr 0 nd,
        at,
        idle,
        begun,
      )
      refl

copying-enabled :
    (at count src dest : ℕ) (is_write : Bool) (r : Registers)
    → enabled (copying at (asyn_control is_write) count src dest r) at ≡ true
copying-enabled at count src dest true r = rw (==-true at at refl) refl
copying-enabled at count src dest false r = rw (==-true at at refl) refl

-- A transfer on an idle channel `k` of a peripheral, with a size and addresses that are not 0, is
-- started with the channel's registers set to it. The interrupt of channel `k` then stops it, and
-- calls the notification for success where the flag of this channel says so, else that for an
-- error.
pub dma_peripheral_driver-Told :
    (dma_channel : ℕ → ℕ) (ptr : ℕ) (p : Peripheral) (src size k isr : ℕ) (is_write : Bool)
    (s : Channels)
    → Distinct dma_channel
    → k < dma_channel_number
    → (if is_write then p.dma_channel_tx else p.dma_channel_rx) ≡ dma_channel k
    → ptr ≢ 0
    → src ≢ 0
    → size ≢ 0
    → p.peripheral_data_reg_ptr ≢ 0
    → enabled s.registers (s.reg_base (dma_channel k)) ≡ false
    → Told dma_channel ptr p src size k isr is_write s
unfolding dma1_irq_handler dma1_channel_irq_handler
dma_peripheral_driver-Told dma_channel ptr p src size k isr is_write s distinct small channel np ns
      nz nd idle =
    let at : ℕ = s.reg_base (dma_channel k) in
    let found =
      channel_number-channel dma_channel distinct 7 0 k (omega arith) small (omega arith) in
    let flag : Bool = isr / (0x02 * 2 ^ (4 * k)) % 2 == 1 in
    record {
      running = record s {
        registers =
            copying at (asyn_control is_write) size p.peripheral_data_reg_ptr src s.registers;
      };
      started = driver-started ptr p src size (dma_channel k) is_write s channel np ns nz nd idle;
      programmed = refl;
      busy = copying-enabled at size p.peripheral_data_reg_ptr src is_write s.registers;
      stopped = rw found (elim (Bool-cases flag) [
        | inl e ↦ rw (e, ==-true at at refl) refl
        | inr e ↦ rw (e, ==-true at at refl) refl
      ]);
      notified = rw found (elim (Bool-cases flag) [ inl e ↦ rw e refl | inr e ↦ rw e refl ]);
    }
