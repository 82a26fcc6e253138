-- ===== src/Area/Walk.antt =====
-- The loops over the fragments: where they stop.
use stm32_os.Common.{
  ℕ, zero, suc, ◌<◌, ◌≡◌, some, [], ◌∷◌, arith, leb, ltb, if◌then◌else◌, length, refl, Bool-cases,
  inl, inr, ==-false, ==-true, ◌∙◌,
}
use stm32_os.Area.{insert_slot, get_slot}
use stm32_os.Area.Fragments.{Frags, Run, before}
use stm32_os.Area.Fit.{best, before_best}

-- What `memory_fragment_insert` makes of the two fragments where the loop stops.
abbrev pub behind_slot : (fs : ℕ → ℕ) → (n : ℕ) → ℕ × ℕ → ℕ
behind_slot fs n (previous, next) = if ltb n (fs next) then next else previous

pub insert_slot-before :
    (k : ℕ) (fs fn : ℕ → ℕ) (current q n p s : ℕ) (l : Frags)
    → Run fs fn p ((p, s) ∷ l)
    → fs current ≡ n
    → length l < k
    → (t : ℕ × ℕ) × (insert_slot k fs fn current q p ≡ some t)
      × (behind_slot fs n t ≡ before q n ((p, s) ∷ l))
unfolding insert_slot
insert_slot-before zero fs fn current q n p s l run e fuel = absurd (omega arith)
insert_slot-before (suc k) fs fn current q n p s [] run e fuel =
    ((q, p), rw (==-true (fn p) 0 run.4) refl, ground arith)
insert_slot-before (suc k) fs fn current q n p s ((p', s') ∷ l) run e fuel =
    let (_, _, _, size, (at, pos, lt, size', rest)) = run in
    elim (Bool-cases (leb (fs p) (fs current))) [
      | inl stop ↦ ((q, p), rw (==-false (fn p) 0 (ground arith), stop) refl, ground arith)
      | inr more ↦
          let run' : Run fs fn p' ((p', s') ∷ l) = (refl, pos, lt, size', rest) in
          let (t, walk, t') = insert_slot-before k fs fn current p n p' s' l run' e (omega arith) in
          (t, rw (==-false (fn p) 0 (ground arith), more, at) walk, t' ∙ ground arith)
    ]

-- What `take_fragment` makes of the three fragments where the loop stops: the target and the one
-- before it.
abbrev pub target_of : (fs : ℕ → ℕ) → (n : ℕ) → ℕ × ℕ × ℕ → ℕ
target_of fs n (z, t, next) = if leb n (fs next) then next else t

abbrev pub behind_of : (fs : ℕ → ℕ) → (n : ℕ) → ℕ × ℕ × ℕ → ℕ
behind_of fs n (z, t, next) = if leb n (fs next) then t else z

pub get_slot-best :
    (k : ℕ) (fs fn : ℕ → ℕ) (n z q p s : ℕ) (l : Frags)
    → Run fs fn p ((p, s) ∷ l)
    → length l < k
    → (t : ℕ × ℕ × ℕ) × (get_slot k fs fn n z q p ≡ some t)
      × (target_of fs n t ≡ best q n ((p, s) ∷ l))
      × (behind_of fs n t ≡ before_best z q n ((p, s) ∷ l))
unfolding get_slot
get_slot-best zero fs fn n z q p s l run fuel = absurd (omega arith)
get_slot-best (suc k) fs fn n z q p s [] run fuel =
    ((z, q, p), rw (==-true (fn p) 0 run.4) refl, ground arith, ground arith)
get_slot-best (suc k) fs fn n z q p s ((p', s') ∷ l) run fuel =
    let (_, _, _, size, (at, pos, lt, size', rest)) = run in
    elim (Bool-cases (ltb (fs p) n)) [
      | inl stop ↦
          ((z, q, p), rw (==-false (fn p) 0 (ground arith), stop) refl, ground arith, ground arith)
      | inr more ↦
          let run' : Run fs fn p' ((p', s') ∷ l) = (refl, pos, lt, size', rest) in
          let (t, walk, e, f) = get_slot-best k fs fn n q p p' s' l run' (omega arith) in
          (
            t,
            rw (==-false (fn p) 0 (ground arith), more, at) walk,
            e ∙ ground arith,
            f ∙ ground arith,
          )
    ]
