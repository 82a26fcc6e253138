-- ===== src/Flash/Copy.antt =====
-- The loop that changes the copy of a page.
use stm32_os.Common.{
  ℕ, zero, suc, ◌+◌, ◌-◌, ◌≡◌, inl, inr, ◌&&◌, arith, ◌==◌, if◌then◌else◌, leb, ltb, ◌∙◌, update,
  Bool-cases,
}
use stm32_os.Queue.{Memory}
use stm32_os.Queue.Window.{Apart}
use stm32_os.Flash.{fill}

-- How many bytes are copied.
abbrev pub copied_bytes : (count size : ℕ) → ℕ
copied_bytes count size = if ltb count size then count else size

pub fill-src :
    (count b offset src size : ℕ) (m : Memory)
    → (fill count b offset src size m).src ≡ src + copied_bytes count size
unfolding fill
fill-src zero b offset src size m = ground arith
fill-src (suc count) b offset src size m = elim (Bool-cases (size == 0)) [
  | inl e ↦ ground arith
  | inr e ↦ rw e (
      fill-src count b (offset + 1) (src + 1) (size - 1) (update m (b + offset) (m src))
      ∙ ground arith)
]

pub fill-size :
    (count b offset src size : ℕ) (m : Memory)
    → (fill count b offset src size m).size ≡ size - copied_bytes count size
unfolding fill
fill-size zero b offset src size m = ground arith
fill-size (suc count) b offset src size m = elim (Bool-cases (size == 0)) [
  | inl e ↦ ground arith
  | inr e ↦ rw e (
      fill-size count b (offset + 1) (src + 1) (size - 1) (update m (b + offset) (m src))
      ∙ ground arith)
]

-- A byte of the memory after the loop, for a source that lies apart from the buffer.
pub fill-filled :
    (count b offset src size : ℕ) (m : Memory) (x : ℕ)
    → Apart (b + offset) count src (copied_bytes count size)
    → (fill count b offset src size m).filled x ≡ (
        if leb (b + offset) x && ltb x (b + offset + copied_bytes count size)
        then m (src + (x - (b + offset)))
        else m x)
unfolding fill
fill-filled zero b offset src size m x apart = ground arith
fill-filled (suc count) b offset src size m x apart = elim (Bool-cases (size == 0)) [
  | inl e ↦ ground arith
  | inr e ↦
      let m' : Memory = update m (b + offset) (m src) in
      rw e
        (fill-filled count b (offset + 1) (src + 1) (size - 1) m' x (ground arith) ∙ ground arith)
]
