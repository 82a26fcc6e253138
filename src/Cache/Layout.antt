-- ===== src/Cache/Layout.antt =====
-- How the caches of a block lie in its memory.
use stm32_os.Common.{
  ℕ, zero, suc, ◌+◌, ◌≤◌, ◌<◌, ◌≡◌, ◌≢◌, refl, sym, ap, ◌∙◌, subst, List, [], ◌∷◌, ◌++◌, some,
  arith, ◌==◌, ==-true, Bool-cases, inl, inr, if◌then◌else◌, ◌&&◌, false, true, has, length, not,
  leb,
}
use stm32_os.Ring.{Links}
use stm32_os.Ring.Chain.{Chain}
use stm32_os.Block.{Blocks}
use stm32_os.Block.Sort.{in_use}
use stm32_os.Cache.{unmark, cache_size, interval, first_fit}

-- The caches `xs` lie between `lo` and `hi`, one behind the other: the gap, the structure, and the
-- memory that is given.
abbrev pub Laid : Blocks → (lo : ℕ) → List ℕ → (hi : ℕ) → Type 0
Laid s lo [] hi = lo ≤ hi
Laid s lo (x ∷ xs) hi =
    (lo + interval ≤ x)
    × (s.start x ≡ x + cache_size)
    × (s.end x ≡ s.start x + unmark (s.size x))
    × Laid s (s.end x) xs hi

-- The changes that the layout does not see.
pub Laid-frame :
    (s s' : Blocks) (lo : ℕ) (xs : List ℕ) (hi : ℕ)
    → ((x : ℕ)
        → has x xs ≡ true
        → (s'.start x ≡ s.start x)
          × (s'.end x ≡ s.end x)
          × (unmark (s'.size x) ≡ unmark (s.size x)))
    → Laid s lo xs hi
    → Laid s' lo xs hi
Laid-frame s s' lo [] hi same laid = laid
Laid-frame s s' lo (x ∷ xs) hi same laid =
    let (a, b, c) = same x (ground arith) in
    let (gap, start, end, rest) = laid in
    (
      gap,
      a ∙ start,
      b ∙ end ∙ rw (a, c) refl,
      subst (λ p. Laid s' p xs hi) (sym b)
          (Laid-frame s s' (s.end x) xs hi (λ y i. same y (ground arith)) rest),
    )

pub Laid-snoc :
    (s : Blocks) (lo : ℕ) (xs : List ℕ) (hi k top : ℕ)
    → Laid s lo xs hi
    → hi + interval ≤ k
    → s.start k ≡ k + cache_size
    → s.end k ≡ s.start k + unmark (s.size k)
    → s.end k ≤ top
    → Laid s lo (xs ++ k ∷ []) top
Laid-snoc s lo [] hi k top laid gap start end le = (omega arith, start, end, le)
Laid-snoc s lo (x ∷ xs) hi k top laid gap start end le =
    let (a, b, c, rest) = laid in (a, b, c, Laid-snoc s (s.end x) xs hi k top rest gap start end le)

-- The bounds of the structures.
pub Laid-below : (s : Blocks) (lo : ℕ) (xs : List ℕ) (hi : ℕ) → Laid s lo xs hi → lo ≤ hi
Laid-below s lo [] hi laid = laid
Laid-below s lo (x ∷ xs) hi laid =
    let (a, b, c, rest) = laid in let le = Laid-below s (s.end x) xs hi rest in omega arith

pub Laid-inside :
    (s : Blocks) (lo : ℕ) (xs : List ℕ) (hi x : ℕ)
    → Laid s lo xs hi
    → has x xs ≡ true
    → (lo ≤ x) × (x < hi)
Laid-inside s lo [] hi x laid i = ground arith
Laid-inside s lo (y ∷ xs) hi x laid i =
    let (a, b, c, rest) = laid in
    let le = Laid-below s (s.end y) xs hi rest in
    elim (Bool-cases (x == y)) [
      | inl e ↦ let at : x ≡ y = ground arith in (omega arith, omega arith)
      | inr e ↦ let (p, q) = Laid-inside s (s.end y) xs hi x rest (ground arith) in (omega arith, q)
    ]

-- The first cache that is large enough and in no use, 0 if there is none.
abbrev pub first_free : (sizes : ℕ → ℕ) → (size : ℕ) → List ℕ → ℕ
first_free sizes size [] = 0
first_free sizes size (x ∷ xs) =
    if leb size (sizes x) && not (in_use (sizes x)) then x else first_free sizes size xs

pub first_fit-free :
    (k : ℕ) (sizes : ℕ → ℕ) (l : Links) (size slob x : ℕ) (r : List ℕ)
    → Chain l x r slob
    → has slob r ≡ false
    → length r < k
    → first_fit k sizes l.next size slob x ≡ some (first_free sizes size (x ∷ r))
unfolding first_fit
first_fit-free zero sizes l size slob x r c out fuel = ground arith
first_fit-free (suc k) sizes l size slob x [] c out fuel =
    elim (Bool-cases (leb size (sizes x) && not (in_use (sizes x)))) [
      | inl e ↦ rw e refl
      | inr e ↦ rw (e, ==-true (l.next x) slob c.0) refl
    ]
first_fit-free (suc k) sizes l size slob x (b ∷ r) c out fuel =
    elim (Bool-cases (leb size (sizes x) && not (in_use (sizes x)))) [
      | inl e ↦ rw e refl
      | inr e ↦
          let ne : (b == slob) ≡ false = ground arith in
          let at : (l.next x == slob) ≡ false = ap (λ y. y == slob) c.0 ∙ ne in
          rw (e, at, c.0) (first_fit-free k sizes l size slob b r c.2 (ground arith) (omega arith))
    ]

-- It is one of the caches.
pub first_free-mem :
    (sizes : ℕ → ℕ) (size : ℕ) (xs : List ℕ)
    → first_free sizes size xs ≢ 0
    → has (first_free sizes size xs) xs ≡ true
first_free-mem sizes size [] ne = ground arith
first_free-mem sizes size (x ∷ xs) ne = ground (arith, first_free-mem sizes size xs)
