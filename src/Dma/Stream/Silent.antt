-- ===== src/Dma/Stream/Silent.antt =====
-- The notifications of the streams: what an interrupt calls, and what cannot be set.
use stm32_os.Common.{
  ℕ, zero, suc, ◌+◌, ◌-◌, ◌*◌, ◌/◌, ◌%◌, ◌^◌, ◌≤◌, ◌<◌, ◌≡◌, ◌≢◌, inl, inr, false, ◌∷◌, ◌==◌,
  if◌then◌else◌, ltb, update, arith, refl, ==-false, none, some, ◌∙◌, ap, Bool-cases,
}
use stm32_os.Dma.Stream.{
  Dma, FlagRegister, shift_bits, call, stream_number, search, dma_stream_state_get,
  dma_stream_func_set, dma_stream_func_clear, dma_irq_handler, dma_stream_irq_handler,
}

-- The streams have addresses of their own, which are not 0.
pub record Separate (base : ℕ → ℕ → ℕ) : Type 0 where
  pub some_address : (c n : ℕ) → base c n ≢ 0
  pub injective :
      (c n d k : ℕ) → c < 2 → n < 8 → d < 2 → k < 8 → base c n ≡ base d k → (c ≡ d) × (n ≡ k)

-- The search finds a stream of the controller.
pub stream_number-base :
    (base : ℕ → ℕ → ℕ) (count number c n : ℕ)
    → Separate base
    → c < 2
    → number ≤ n
    → n < number + count
    → number + count ≤ 8
    → stream_number base count number c (base c n) ≡ n
unfolding stream_number
stream_number-base base zero number c n separate lc low high small = omega arith
stream_number-base base (suc count) number c n separate lc low high small =
    elim (Bool-cases (base c n == base c number)) [
      | inl e ↦
          let (_, same) =
            separate.injective c n c number lc (omega arith) lc (omega arith) (ground arith) in
          rw e (omega arith)
      | inr e ↦
          let other : number ≢ n = λ f. ground (arith, ap (base c) f) in
          rw e (
            stream_number-base base count (number + 1) c n separate lc (ground arith) (omega arith)
              (omega arith))
    ]

-- What the interrupt of a stream leaves: the stream is stopped, its flags are cleared, and the
-- notification that is called, if there is one, is that of its number modulo 4.
abbrev told_at : (base : ℕ → ℕ → ℕ) (c n flags bit : ℕ) → Dma → Dma
told_at base c n flags bit s =
    let register = if ltb n 4 then FlagRegister.low c else FlagRegister.high c in
    let unit = 2 ^ bit in
    let complete = flags / (0x20 * unit) % 2 == 1 in
    record s {
      registers = record (s.registers) { control = update s.registers.control (base c n) 0 };
      cleared =
          (register, if complete then 0x20 * unit else 0x08 * unit)
          ∷ (register, 0x10 * unit)
          ∷ s.cleared;
      notified =
          call (if complete then s.complete_notify c (n % 4) else s.error_notify c (n % 4))
            s.notified;
    }

-- The flags of a stream have 6 bits in a half of their register: those of the first two streams are
-- in the lower half, those of the other two in the upper one.
abbrev pub told : (base : ℕ → ℕ → ℕ) (c n flags : ℕ) → Dma → Dma
told base c n flags s = told_at base c n flags (n % 4 / 2 * 16 + n % 2 * 6) s

shift_bits-half : (n : ℕ) → n < 8 → shift_bits (n % 4) ≡ n % 4 / 2 * 16 + n % 2 * 6
shift_bits-half n lt = ground arith

told-shift_bits :
    (base : ℕ → ℕ → ℕ) (c n flags : ℕ) (s : Dma)
    → Separate base
    → c < 2
    → n < 8
    → dma_stream_irq_handler base c n flags s ≡ told_at base c n flags (shift_bits (n % 4)) s
unfolding dma_stream_irq_handler dma_irq_handler
told-shift_bits base c n flags s separate lc ln =
    let found =
      stream_number-base base 8 0 c n separate lc (omega arith) (omega arith) (omega arith) in
    let number : (if ltb n 4 then n else n - 4) ≡ n % 4 = ground arith in
    rw (found, number)
      (elim (Bool-cases (flags / (0x20 * 2 ^ shift_bits (n % 4)) % 2 == 1)) [
        | inl e ↦ rw e refl
        | inr e ↦ rw e refl
      ])

-- The interrupt of stream `n` of a controller stops the stream, clears its flags for half a
-- transfer and for the whole one, or for an error, and calls the notification of stream `n % 4`:
-- for streams 4 to 7 the one of another stream.
pub dma_stream_irq_handler-told :
    (base : ℕ → ℕ → ℕ) (c n flags : ℕ) (s : Dma)
    → Separate base
    → c < 2
    → n < 8
    → dma_stream_irq_handler base c n flags s ≡ told base c n flags s
dma_stream_irq_handler-told base c n flags s separate lc ln =
    told-shift_bits base c n flags s separate lc ln
    ∙ ap (λ b. told_at base c n flags b s) (shift_bits-half n ln)

stream_number-none :
    (base : ℕ → ℕ → ℕ) (count number n : ℕ)
    → Separate base
    → n < 8
    → number + count ≤ 8
    → stream_number base count number 1 (base 0 n) ≡ number + count
unfolding stream_number
stream_number-none base zero number n separate ln small = omega arith
stream_number-none base (suc count) number n separate ln small =
    elim (Bool-cases (base 0 n == base 1 number)) [
      | inl e ↦
          let (other, _) =
            separate.injective 0 n 1 number (omega arith) ln (omega arith) (omega arith)
              (ground arith) in
          omega arith
      | inr e ↦
          rw e
            (stream_number-none base count (number + 1) n separate ln (omega arith) ∙ omega arith)
    ]

-- What the three functions do for stream `n` of controller `c`: of the first one nothing, with the
-- result for a failure; of the second one they use what lies behind the array.
pub record Lost (base : ℕ → ℕ → ℕ) (c n f g : ℕ) (s : Dma) : Type 0 where
  pub set : dma_stream_func_set base (base c n) f g s ≡ (if c == 0 then some (false, s) else none)
  pub clear :
      dma_stream_func_clear base (base c n) f g s ≡ (if c == 0 then some (false, s) else none)
  pub state : dma_stream_state_get base (base c n) ≡ (if c == 0 then some false else none)

-- To set or to clear a notification for the end of a transfer, or to read the state of a stream, is
-- refused for each stream of the first controller, with nothing changed. For each stream of the
-- second controller it reads or writes behind the array of the controllers, so that nothing is
-- known of what it leaves.
pub dma_stream_func_set-Lost :
    (base : ℕ → ℕ → ℕ) (c n f g : ℕ) (s : Dma)
    → Separate base
    → c < 2
    → n < 8
    → f ≢ 0
    → Lost base c n f g s
unfolding dma_stream_func_set dma_stream_func_clear dma_stream_state_get search
dma_stream_func_set-Lost base c n f g s separate lc ln nf =
    let asked = ==-false f 0 nf in
    let some_stream = ==-false (base c n) 0 (separate.some_address c n) in
    elim (Bool-cases (c == 0)) [
      | inl e ↦
          let first : base c n ≡ base 0 n = ap (λ d. base d n) (ground arith) in
          let found : stream_number base 8 0 1 (base c n) ≡ 8 =
            ap (stream_number base 8 0 1) first
            ∙ stream_number-none base 8 0 n separate ln (omega arith) in
          record {
            set = rw (e, found, some_stream) refl;
            clear = rw (e, found, some_stream) refl;
            state = rw (e, found, some_stream) refl;
          }
      | inr e ↦
          let second : base c n ≡ base 1 n = ap (λ d. base d n) (ground arith) in
          let found : stream_number base 8 0 1 (base c n) ≡ n =
            ap (stream_number base 8 0 1) second
            ∙ stream_number-base base 8 0 1 n separate (omega arith) (omega arith) ln
                (omega arith) in
          let inside : (n == 8) ≡ false = ground arith in
          record {
            set = rw (e, found, some_stream, inside, asked) refl;
            clear = rw (e, found, some_stream, inside, asked) refl;
            state = rw (e, found, some_stream, inside) refl;
          }
    ]
