-- ===== src/Dma/Stream/Idle.antt =====
-- The stream that a copy in memory gets.
use stm32_os.Common.{
  ℕ, zero, suc, ◌+◌, ◌-◌, ◌*◌, ◌/◌, ◌%◌, ◌^◌, ◌≤◌, ◌<◌, ◌≡◌, ◌≢◌, inl, inr, Bool, true, false, ◌==◌,
  update, arith, refl, subst, sym, ◌∙◌, ap, Bool-cases, ==-true, ==-false,
}
use stm32_os.Dma.{Registers, enabled, enable, start}
use stm32_os.Dma.Stream.{
  ExeState, Request, Peripheral, dma_peripheral_driver, Dma, dma_stream_number, alignment,
  idle_stream, dma_memory_driver,
}
use stm32_os.Dma.Stream.Unit.{copy_control, unit_of, control_word, alignment-unit, enable-control}

-- The registers of a stream that copies `count` units from `src` to `dest`, started.
abbrev pub copying : (at control count src dest : ℕ) → Registers → Registers
copying at control count src dest r = record {
  control = update (update r.control at control) at (enable control);
  count = update r.count at count;
  peripheral = update r.peripheral at src;
  memory = update r.memory at dest;
}

pub start-copying :
    (at control count src dest : ℕ) (r : Registers)
    → src ≢ 0
    → dest ≢ 0
    → start at control count src dest r ≡ (true, copying at control count src dest r)
unfolding start
start-copying at control count src dest r ns nd =
    rw (==-true at at refl, ==-false src 0 ns, ==-false dest 0 nd) refl

idle_stream-first :
    (base : ℕ → ℕ → ℕ) (count number k : ℕ) (r : Registers)
    → number ≤ k
    → k < number + count
    → ((j : ℕ) → number ≤ j → j < k → enabled r (base 1 j) ≡ true)
    → enabled r (base 1 k) ≡ false
    → idle_stream base count number r ≡ base 1 k
unfolding idle_stream
idle_stream-first base zero number k r low high busy idle = omega arith
idle_stream-first base (suc count) number k r low high busy idle = elim (Bool-cases (number == k)) [
  | inl e ↦
      let same : number ≡ k = ground arith in
      let free : enabled r (base 1 number) ≡ false =
        ap (λ (n : ℕ). enabled r (base 1 n)) same ∙ idle in
      rw free (ap (base 1) same)
  | inr e ↦
      let taken = busy number (omega arith) (ground arith) in
      rw taken (
        idle_stream-first base count (number + 1) k r (ground arith) (omega arith)
          (λ j low' high'. busy j (omega arith) high') idle)
]

idle_stream-busy :
    (base : ℕ → ℕ → ℕ) (count number : ℕ) (r : Registers)
    → 0 < number + count
    → ((j : ℕ) → j < number + count → enabled r (base 1 j) ≡ true)
    → enabled r (idle_stream base count number r) ≡ true
unfolding idle_stream
idle_stream-busy base zero number r some_stream busy = busy (number - 1) (omega arith)
idle_stream-busy base (suc count) number r some_stream busy =
    rw (busy number (omega arith))
      (idle_stream-busy base count (number + 1) r (omega arith) (λ j small. busy j (omega arith)))

dma_memory_driver-copying :
    (base : ℕ → ℕ → ℕ) (src dest size k : ℕ) (is_write : Bool) (s : Dma)
    → src ≢ 0
    → dest ≢ 0
    → size ≢ 0
    → k < dma_stream_number
    → ((j : ℕ) → j < k → enabled s.registers (base 1 j) ≡ true)
    → enabled s.registers (base 1 k) ≡ false
    → dma_memory_driver base src dest size is_write s ≡ (
      base 1 k,
      record s {
        registers =
            copying
              (base 1 k)
              (copy_control is_write src dest)
              (size / 2 ^ alignment src dest)
              src
              dest
              s.registers;
      },
    )
unfolding dma_memory_driver
dma_memory_driver-copying base src dest size k is_write s ns nd nz small busy idle =
    let found =
      idle_stream-first base 8 0 k s.registers (omega arith) small (λ j low high. busy j high)
        idle in
    let begun =
      start-copying (base 1 k) (copy_control is_write src dest) (size / 2 ^ alignment src dest) src
        dest s.registers ns nd in
    rw (found, ==-false size 0 nz, idle, begun) refl

-- A copy that was started on stream `k` of the second controller.
pub record CopyStarted (base : ℕ → ℕ → ℕ) (src dest size k : ℕ) (is_write : Bool) (s : Dma)
    (t : ℕ × Dma) : Type 0 where
  pub stream : t.0 ≡ base 1 k
  pub control : t.1.registers.control (base 1 k) ≡ control_word is_write (unit_of src dest)
  pub count : t.1.registers.count (base 1 k) ≡ size / unit_of src dest
  pub peripheral : t.1.registers.peripheral (base 1 k) ≡ src
  pub memory : t.1.registers.memory (base 1 k) ≡ dest
  pub others :
      (x : ℕ)
      → x ≢ base 1 k
      → (t.1.registers.control x ≡ s.registers.control x)
        × (t.1.registers.count x ≡ s.registers.count x)
        × (t.1.registers.peripheral x ≡ s.registers.peripheral x)
        × (t.1.registers.memory x ≡ s.registers.memory x)
  pub rest : t.1 ≡ record s { registers = t.1.registers }

pub update_at : (f : ℕ → ℕ) (i v : ℕ) → update f i v i ≡ v
update_at f i v = rw (==-true i i refl) refl

update_beside : (f : ℕ → ℕ) (i v x : ℕ) → x ≢ i → update f i v x ≡ f x
update_beside f i v x ne = ground arith

-- A copy between two addresses of a size, none of them 0 and the size below 2 ^ 16, as NDTR has 16
-- bits, where stream `k` of the second controller is the first one that is not enabled, is started
-- on that stream: in the largest unit of one, two or four bytes in which both addresses have the
-- same place, as many of them as the size holds, with the control word for it. It returns the
-- stream, and no register of another one changes.
pub dma_memory_driver-first :
    (base : ℕ → ℕ → ℕ) (src dest size k : ℕ) (is_write : Bool) (s : Dma)
    → src ≢ 0
    → dest ≢ 0
    → size ≢ 0
    → size < 2 ^ 16
    → k < dma_stream_number
    → ((j : ℕ) → j < k → enabled s.registers (base 1 j) ≡ true)
    → enabled s.registers (base 1 k) ≡ false
    → CopyStarted base src dest size k is_write s (dma_memory_driver base src dest size is_write s)
dma_memory_driver-first base src dest size k is_write s ns nd nz holds small busy idle =
    let at : ℕ = base 1 k in
    let word : ℕ = copy_control is_write src dest in
    let r = s.registers in
    subst (CopyStarted base src dest size k is_write s)
      (sym (dma_memory_driver-copying base src dest size k is_write s ns nd nz small busy idle))
      (record {
        stream = refl;
        control =
            update_at (update r.control at word) at (enable word)
            ∙ enable-control is_write src dest;
        count =
            update_at r.count at (size / 2 ^ alignment src dest)
            ∙ ap (λ (u : ℕ). size / u) (alignment-unit src dest);
        peripheral = update_at r.peripheral at src;
        memory = update_at r.memory at dest;
        others = λ x ne. (
          update_beside (update r.control at word) at (enable word) x ne
              ∙ update_beside r.control at word x ne,
          update_beside r.count at (size / 2 ^ alignment src dest) x ne,
          update_beside r.peripheral at src x ne,
          update_beside r.memory at dest x ne,
        );
        rest = refl;
      })

-- Where all streams of the second controller are enabled, a copy is refused and nothing changes.
pub dma_memory_driver-busy :
    (base : ℕ → ℕ → ℕ) (src dest size : ℕ) (is_write : Bool) (s : Dma)
    → ((j : ℕ) → j < dma_stream_number → enabled s.registers (base 1 j) ≡ true)
    → dma_memory_driver base src dest size is_write s ≡ (0, s)
unfolding dma_memory_driver
dma_memory_driver-busy base src dest size is_write s busy =
    let taken = idle_stream-busy base 8 0 s.registers (omega arith) busy in
    elim (Bool-cases (size == 0)) [ inl e ↦ rw e refl | inr e ↦ rw (e, taken) refl ]

-- A write for a peripheral on an idle stream, with addresses and a size that are not 0.
pub dma_peripheral_driver-copying :
    (base : ℕ → ℕ → ℕ) (ptr : ℕ) (p : Peripheral) (buff size : ℕ) (s : Dma)
    → ptr ≢ 0
    → buff ≢ 0
    → p.peripheral_data_reg_ptr ≢ 0
    → size ≢ 0
    → enabled s.registers p.dma_stream_tx ≡ false
    → dma_peripheral_driver base ptr p buff size Request.write_asyn s ≡ (
      ExeState.exe_success,
      record s {
        registers =
            copying p.dma_stream_tx
              (0x456 + p.dma_channel * 2 ^ 25 % 2 ^ 32)
              size
              p.peripheral_data_reg_ptr
              buff
              s.registers;
      },
    )
unfolding dma_peripheral_driver
dma_peripheral_driver-copying base ptr p buff size s np nb nd nz idle =
    let begun =
      start-copying p.dma_stream_tx (0x456 + p.dma_channel * 2 ^ 25 % 2 ^ 32) size
        p.peripheral_data_reg_ptr buff s.registers nd nb in
    rw (==-false ptr 0 np, ==-false buff 0 nb, ==-false size 0 nz, idle, begun) refl
