-- ===== src/Area/Fragments.antt =====
-- What the list of fragments stands for: offsets with sizes, the largest fragment first.
use stm32_os.Common.{
  ℕ, ◌≤◌, ◌<◌, ◌^◌, ◌≡◌, ◌≢◌, true, false, List, [], ◌∷◌, arith, ltb, if◌then◌else◌, has, Distinct,
  refl, subst, sym, Bool-cases, inl, inr,
}
use stm32_os.Area.{Area}

abbrev pub Frags : Type 0
Frags = List (ℕ × ℕ)

abbrev pub offsets : Frags → List ℕ
offsets [] = []
offsets ((o, n) ∷ l) = o ∷ offsets l

-- From `p` on the fragments are these.
abbrev pub Run : (fragment_size next_fragment : ℕ → ℕ) → ℕ → Frags → Type 0
Run fs fn p [] = p ≡ 0
Run fs fn p ((o, n) ∷ l) = (p ≡ o) × (0 < o) × (o < 2 ^ 16) × (fs o ≡ n) × Run fs fn (fn o) l

abbrev pub RunOf : Area → Frags → Type 0
RunOf a l = Run a.fragment_size a.next_fragment a.max_fragment_offset l

-- Each fragment is at most as large as the one before it.
abbrev pub Sorted : ℕ → Frags → Type 0
Sorted m [] = Unit
Sorted m ((o, n) ∷ l) = (n ≤ m) × Sorted n l

pub record Holds (a : Area) (l : Frags) : Type 0 where
  pub run : RunOf a l
  pub distinct : Distinct (offsets l)
  pub sorted : Sorted (2 ^ 16) l

pub Run-frame :
    (fs fn gs gn : ℕ → ℕ) (p : ℕ) (l : Frags)
    → ((x : ℕ) → has x (offsets l) ≡ true → gs x ≡ fs x)
    → ((x : ℕ) → has x (offsets l) ≡ true → gn x ≡ fn x)
    → Run fs fn p l
    → Run gs gn p l
Run-frame fs fn gs gn p [] s e r = r
Run-frame fs fn gs gn p ((o, n) ∷ l) s e (at, pos, lt, size, rest) =
    let later =
      Run-frame fs fn gs gn (fn o) l (λ x i. s x (ground arith)) (λ x i. e x (ground arith)) rest in
    (at, pos, lt, ground (arith, s o), subst (λ y. Run gs gn y l) (sym (e o (ground arith))) later)

-- Where a fragment of size `n` belongs: behind all that are larger.
abbrev pub place : (o n : ℕ) → Frags → Frags
place o n [] = (o, n) ∷ []
place o n ((p, k) ∷ l) = if ltb n k then (p, k) ∷ place o n l else (o, n) ∷ (p, k) ∷ l

-- The fragment behind which that is; `q` if there is none.
abbrev pub before : (q n : ℕ) → Frags → ℕ
before q n [] = q
before q n ((p, k) ∷ l) = if ltb n k then before p n l else q

pub has-before : (q n : ℕ) (l : Frags) → has (before q n l) (q ∷ offsets l) ≡ true
has-before q n [] = ground arith
has-before q n ((p, k) ∷ l) = ground (arith, has-before p n l)

pub has-place : (x o n : ℕ) (l : Frags) → has x (offsets (place o n l)) ≡ has x (o ∷ offsets l)
has-place x o n [] = refl
has-place x o n ((p, k) ∷ l) = ground (arith, has-place x o n l)

pub Distinct-place :
    (o n : ℕ) (l : Frags)
    → Distinct (offsets l)
    → has o (offsets l) ≡ false
    → Distinct (offsets (place o n l))
Distinct-place o n [] d new = (refl, tt)
Distinct-place o n ((p, k) ∷ l) d new = elim (Bool-cases (ltb n k)) [
  | inl e ↦ rw e (ground (arith, has-place p o n l), Distinct-place o n l d.1 (ground arith))
  | inr e ↦ rw e (new, d)
]

pub Sorted-place : (m o n : ℕ) (l : Frags) → n ≤ m → Sorted m l → Sorted m (place o n l)
Sorted-place m o n [] le s = (le, tt)
Sorted-place m o n ((p, k) ∷ l) le s = elim (Bool-cases (ltb n k)) [
  | inl e ↦ rw e (s.0, Sorted-place k o n l (ground arith) s.1)
  | inr e ↦ rw e (le, (ground arith, s.1))
]

pub Run-ne_null :
    (fs fn : ℕ → ℕ) (p x : ℕ) (l : Frags) → Run fs fn p l → has x (offsets l) ≡ true → x ≢ 0
Run-ne_null fs fn p x [] run i = absurd (ground arith)
Run-ne_null fs fn p x ((o, n) ∷ l) run i =
    let later = Run-ne_null fs fn (fn o) x l run.4 in ground (arith, later)
