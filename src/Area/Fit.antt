-- ===== src/Area/Fit.antt =====
-- The best fragment for a size: the smallest one that is large enough, and the list without it.
use stm32_os.Common.{
  ℕ, ◌≤◌, ◌<◌, ◌≡◌, true, false, [], ◌∷◌, arith, ◌==◌, ltb, if◌then◌else◌, has, Distinct, refl,
  subst, sym, ap, Bool-cases, inl, inr, ==-false, ==-true, ne_of_has,
}
use stm32_os.Area.Fragments.{Frags, offsets, Sorted}

-- The size of the fragment at an offset, 0 if there is none.
abbrev pub size_of : ℕ → Frags → ℕ
size_of x [] = 0
size_of x ((o, n) ∷ l) = if x == o then n else size_of x l

abbrev pub discard : ℕ → Frags → Frags
discard t [] = []
discard t ((o, n) ∷ l) = if t == o then l else (o, n) ∷ discard t l

-- Where the fragment `q` is large enough for `n`: the last one that is, of `q` and those behind it
-- ...
abbrev pub best : (q n : ℕ) → Frags → ℕ
best q n [] = q
best q n ((p, k) ∷ l) = if ltb k n then q else best p n l

-- ... the one before that, where `z` is before `q` ...
abbrev pub before_best : (z q n : ℕ) → Frags → ℕ
before_best z q n [] = z
before_best z q n ((p, k) ∷ l) = if ltb k n then z else before_best q p n l

-- ... and the list without it.
abbrev pub without : (q s n : ℕ) → Frags → Frags
without q s n [] = []
without q s n ((p, k) ∷ l) = if ltb k n then (p, k) ∷ l else (q, s) ∷ without p k n l

pub has-best : (q n : ℕ) (l : Frags) → has (best q n l) (q ∷ offsets l) ≡ true
has-best q n [] = ground arith
has-best q n ((p, k) ∷ l) = ground (arith, has-best p n l)

pub has-before_best : (z q n : ℕ) (l : Frags) → has (before_best z q n l) (z ∷ q ∷ offsets l) ≡ true
has-before_best z q n [] = ground arith
has-before_best z q n ((p, k) ∷ l) = ground (arith, has-before_best q p n l)

best-next : (q n p k : ℕ) (l : Frags) → ltb k n ≡ false → best q n ((p, k) ∷ l) ≡ best p n l
best-next q n p k l e = rw e refl

pub without-discard :
    (q s n : ℕ) (l : Frags)
    → Distinct (q ∷ offsets l)
    → without q s n l ≡ discard (best q n l) ((q, s) ∷ l)
without-discard q s n [] d = ground arith
without-discard q s n ((p, k) ∷ l) d = elim (Bool-cases (ltb k n)) [
  | inl e ↦ rw (e, ==-true q q refl)
  | inr e ↦
      let ne = ne_of_has (best p n l) q (p ∷ offsets l) (has-best p n l) d.0 in
      subst (λ b. without q s n ((p, k) ∷ l) ≡ discard b ((q, s) ∷ (p, k) ∷ l))
        (sym (best-next q n p k l e))
        (rw (e, ==-false (best p n l) q ne) (ap (λ r. (q, s) ∷ r) (without-discard p k n l d.1)))
]

pub size_of-le : (m x : ℕ) (l : Frags) → Sorted m l → size_of x l ≤ m
size_of-le m x [] s = omega arith
size_of-le m x ((o, n) ∷ l) s = ground (arith, size_of-le n x l s.1)

-- The fragment `t` is the smallest that is large enough for `n`.
abbrev pub Best : (n t : ℕ) → Frags → Type 0
Best n t l = (n ≤ size_of t l) × ((x : ℕ) → n ≤ size_of x l → size_of t l ≤ size_of x l)

-- Of a list sorted by size the last one that is large enough is the smallest one that is.
pub best-least :
    (q s n m : ℕ) (l : Frags)
    → 0 < n
    → n ≤ s
    → Distinct (q ∷ offsets l)
    → Sorted m ((q, s) ∷ l)
    → Best n (best q n l) ((q, s) ∷ l)
best-least q s n m [] pos le d sorted = (ground arith, λ x h. ground arith)
best-least q s n m ((p, k) ∷ l) pos le d sorted = elim (Bool-cases (ltb k n)) [
  | inl e ↦
      rw (e, ==-true q q refl)
        (le, λ x h. ground (arith, size_of-le k x ((p, k) ∷ l) (omega arith, sorted.1.1)))
  | inr e ↦
      let ne = ne_of_has (best p n l) q (p ∷ offsets l) (has-best p n l) d.0 in
      let (fits, least) = best-least p k n s l pos (ground arith) d.1 sorted.1 in
      let small = size_of-le s (best p n l) ((p, k) ∷ l) sorted.1 in
      subst (λ b. Best n b ((q, s) ∷ (p, k) ∷ l)) (sym (best-next q n p k l e))
        (rw (==-false (best p n l) q ne) (fits, λ x h. ground (arith, least x)))
]

pub has-discard :
    (x t : ℕ) (l : Frags) → has x (offsets l) ≡ false → has x (offsets (discard t l)) ≡ false
has-discard x t [] out = refl
has-discard x t ((o, n) ∷ l) out = ground (arith, has-discard x t l)

pub Distinct-discard : (t : ℕ) (l : Frags) → Distinct (offsets l) → Distinct (offsets (discard t l))
Distinct-discard t [] d = tt
Distinct-discard t ((o, n) ∷ l) d = elim (Bool-cases (t == o)) [
  | inl e ↦ rw e d.1
  | inr e ↦ rw e (has-discard o t l d.0, Distinct-discard t l d.1)
]

pub Sorted-weaken : (m k : ℕ) (l : Frags) → m ≤ k → Sorted m l → Sorted k l
Sorted-weaken m k [] le s = tt
Sorted-weaken m k ((o, n) ∷ l) le s = (omega (arith, s.0), s.1)

pub Sorted-discard : (m t : ℕ) (l : Frags) → Sorted m l → Sorted m (discard t l)
Sorted-discard m t [] s = tt
Sorted-discard m t ((o, n) ∷ l) s = elim (Bool-cases (t == o)) [
  | inl e ↦ rw e (Sorted-weaken n m l s.0 s.1)
  | inr e ↦ rw e (s.0, Sorted-discard n t l s.1)
]
