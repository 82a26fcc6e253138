-- ===== src/Queue/Window.antt =====
-- The messages in the storage of a queue, and how a copy changes them.
use stm32_os.Common.{
  ℕ, zero, suc, ◌+◌, ◌-◌, ◌*◌, ◌≤◌, ◌<◌, ◌≡◌, ◌≢◌, ◌⊎◌, List, [], ◌∷◌, ◌++◌, arith, ◌==◌,
  if◌then◌else◌, ltb, ap₂, refl, inl, inr, ap, subst, ==-true, ==-false, Bool-cases,
}
use stm32_os.Queue.{Memory, memcpy}

-- The `n` bytes from `p` on.
abbrev pub bytes : Memory → ℕ → ℕ → List ℕ
bytes m p zero = []
bytes m p (suc n) = m p ∷ bytes m (p + 1) n

-- The slot after `i`, and `n` slots after it, of `cap` slots in a circle.
abbrev pub after : ℕ → ℕ → ℕ
after cap i = if i + 1 == cap then 0 else i + 1

abbrev pub advance : ℕ → ℕ → ℕ → ℕ
advance cap i n = if ltb (i + n) cap then i + n else i + n - cap

-- The `n` messages from slot `i` on.
abbrev pub window : Memory → (start size cap i n : ℕ) → List (List ℕ)
window m start size cap i zero = []
window m start size cap i (suc n) =
    bytes m (start + i * size) size ∷ window m start size cap (after cap i) n

-- Two stretches of memory that share no byte.
abbrev pub Apart : ℕ → ℕ → ℕ → ℕ → Type 0
Apart p n q k = (p + n ≤ q) ⊎ (q + k ≤ p)

bytes-memcpy_at :
    (d s n : ℕ) (m : Memory) (p q j : ℕ)
    → d ≤ p
    → p + j ≤ d + n
    → q ≡ s + (p - d)
    → bytes (memcpy d s n m) p j ≡ bytes m q j
bytes-memcpy_at d s n m p q zero le lt e = refl
bytes-memcpy_at d s n m p q (suc j) le lt e =
    ap₂ ◌∷◌ (ground arith)
      (bytes-memcpy_at d s n m (p + 1) (q + 1) j (omega arith) (omega arith) (omega arith))

pub bytes-memcpy_self : (d s n : ℕ) (m : Memory) → bytes (memcpy d s n m) d n ≡ bytes m s n
bytes-memcpy_self d s n m = bytes-memcpy_at d s n m d s n (omega arith) (omega arith) (omega arith)

pub bytes-memcpy-Apart :
    (d s n : ℕ) (m : Memory) (p j : ℕ) → Apart p j d n → bytes (memcpy d s n m) p j ≡ bytes m p j
bytes-memcpy-Apart d s n m p zero apart = refl
bytes-memcpy-Apart d s n m p (suc j) apart =
    ap₂ ◌∷◌ (ground arith) (bytes-memcpy-Apart d s n m (p + 1) j (ground arith))

mul_mono : (a b c : ℕ) → a ≤ b → a * c ≤ b * c
mul_mono a b c h = grind arith

-- Slots of the storage.
pub slot_end :
    (start size cap i : ℕ) → 0 < size → i < cap → start + i * size + size ≤ start + size * cap
slot_end start size cap i pos lt = grind arith

pub slot_last :
    (start size cap i : ℕ)
    → 0 < size
    → i < cap
    → (start + i * size + size == start + size * cap) ≡ (i + 1 == cap)
slot_last start size cap i pos lt = elim (Bool-cases (i + 1 == cap)) [
  | inl e ↦
      let f : i + 1 ≡ cap = ground arith in
      rw (
        e,
        ==-true (start + i * size + size) (start + size * cap)
            (omega (arith, ap (λ (t : ℕ). t * size) f)),
      )
  | inr e ↦
      let f : i + 2 ≤ cap = ground arith in
      rw (
        e,
        ==-false (start + i * size + size) (start + size * cap)
            (λ g. omega (arith, mul_mono (i + 2) cap size f)),
      )
]

slots-Apart : (start size i j : ℕ) → i ≢ j → Apart (start + i * size) size (start + j * size) size
slots-Apart start size i j ne = elim (Bool-cases (ltb i j)) [
  | inl e ↦ let f : i + 1 ≤ j = ground arith in inl (omega (arith, mul_mono (i + 1) j size f))
  | inr e ↦ let f : j + 1 ≤ i = ground arith in inr (omega (arith, mul_mono (j + 1) i size f))
]

module _ (start size cap : ℕ) where
  -- A copy to somewhere outside the storage.
  pub window-memcpy_outside :
      (d s n : ℕ) (m : Memory) (i k : ℕ)
      → 0 < size
      → i < cap
      → Apart start (size * cap) d n
      → window (memcpy d s n m) start size cap i k ≡ window m start size cap i k
  window-memcpy_outside d s n m i zero pos lt apart = refl
  window-memcpy_outside d s n m i (suc k) pos lt apart =
      ap₂ ◌∷◌
        (bytes-memcpy-Apart d s n m (start + i * size) size
          (ground (arith, slot_end start size cap i)))
        (window-memcpy_outside d s n m (after cap i) k pos (ground arith) apart)

  -- A copy to the slot behind the window adds a message to it.
  pub window-memcpy_behind :
      (s : ℕ) (m : Memory) (i k w : ℕ)
      → i < cap
      → k < cap
      → w ≡ advance cap i k
      → window (memcpy (start + w * size) s size m) start size cap i (suc k)
        ≡ window m start size cap i k ++ bytes m s size ∷ []
  window-memcpy_behind s m i zero w lt lk e =
      let at : w ≡ i = ground arith in
      subst
        (λ j.
          bytes (memcpy (start + w * size) s size m) (start + j * size) size ∷ []
          ≡ bytes m s size ∷ [])
        at (ap (λ b. b ∷ []) (bytes-memcpy_self (start + w * size) s size m))
  window-memcpy_behind s m i (suc k) w lt lk e =
      ap₂ ◌∷◌
        (bytes-memcpy-Apart (start + w * size) s size m (start + i * size) size
          (slots-Apart start size i w (ground arith)))
        (window-memcpy_behind s m (after cap i) k w (ground arith) (omega arith) (ground arith))
