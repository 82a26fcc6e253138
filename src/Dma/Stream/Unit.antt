-- ===== src/Dma/Stream/Unit.antt =====
-- The units of a copy in memory, and the control word for them.
use stm32_os.Common.{
  ℕ, ◌+◌, ◌*◌, ◌%◌, ◌^◌, ◌≡◌, ◌⊎◌, inl, inr, Bool, true, false, ◌==◌, if◌then◌else◌, arith, refl,
  sym, ◌∙◌, ap,
}
use stm32_os.Dma.{enable}
use stm32_os.Dma.Stream.{alignment}

-- The control word of a copy (`is_write`) or of the filling of an area.
abbrev pub copy_control : (is_write : Bool) (src dest : ℕ) → ℕ
copy_control is_write src dest =
    (if is_write then 0x696 else 0x496)
    + 0x30000
    + alignment src dest * 0x800
    + alignment src dest * 0x2000

-- The largest unit of one, two or four bytes that the two addresses have the same place in.
abbrev pub unit_of : (src dest : ℕ) → ℕ
unit_of src dest = if src % 4 == dest % 4 then 4 else if src % 2 == dest % 2 then 2 else 1

-- What CR then holds: the stream is enabled, it copies in units of the size, and counts both
-- addresses up, or only that of the destination.
abbrev pub control_word : (is_write : Bool) (unit : ℕ) → ℕ
control_word true unit = if unit == 4 then 0x35697 else if unit == 2 then 0x32E97 else 0x30697
control_word false unit = if unit == 4 then 0x35497 else if unit == 2 then 0x32C97 else 0x30497

alignment-cases :
    (src dest : ℕ)
    → (let a = alignment src dest in
        let u = unit_of src dest in
        ((a ≡ 0) × (u ≡ 1)) ⊎ (((a ≡ 1) × (u ≡ 2)) ⊎ ((a ≡ 2) × (u ≡ 4))))
alignment-cases src dest = ground arith

pub alignment-unit : (src dest : ℕ) → 2 ^ alignment src dest ≡ unit_of src dest
alignment-unit src dest = elim (alignment-cases src dest) [
  | inl (a, u) ↦ ap (λ (n : ℕ). 2 ^ n) a ∙ sym u
  | inr (inl (a, u)) ↦ ap (λ (n : ℕ). 2 ^ n) a ∙ sym u
  | inr (inr (a, u)) ↦ ap (λ (n : ℕ). 2 ^ n) a ∙ sym u
]

abbrev enabled_word : (is_write : Bool) (align : ℕ) → ℕ
enabled_word w n = enable ((if w then 0x696 else 0x496) + 0x30000 + n * 0x800 + n * 0x2000)

word-unit :
    (w : Bool) (a u n v : ℕ)
    → enabled_word w n ≡ control_word w v
    → a ≡ n
    → u ≡ v
    → enabled_word w a ≡ control_word w u
word-unit w a u n v at ea eu = ap (enabled_word w) ea ∙ at ∙ sym (ap (control_word w) eu)

words :
    (w : Bool)
    → (enabled_word w 0 ≡ control_word w 1)
      × (enabled_word w 1 ≡ control_word w 2)
      × (enabled_word w 2 ≡ control_word w 4)
words true = (refl, refl, refl)
words false = (refl, refl, refl)

pub enable-control :
    (w : Bool) (src dest : ℕ) → enable (copy_control w src dest) ≡ control_word w (unit_of src dest)
enable-control w src dest =
    let a : ℕ = alignment src dest in
    let u : ℕ = unit_of src dest in
    elim (alignment-cases src dest) [
      | inl (ea, eu) ↦ word-unit w a u 0 1 (words w).0 ea eu
      | inr (inl (ea, eu)) ↦ word-unit w a u 1 2 (words w).1 ea eu
      | inr (inr (ea, eu)) ↦ word-unit w a u 2 4 (words w).2 ea eu
    ]
