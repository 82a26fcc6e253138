-- ===== src/Common/Lists.antt =====
-- Lists measured by native numbers, membership as a test, and distinct elements.
use Prim.Native.Nat.{ℕ, zero, suc, ◌+◌}
use mathlib.Core.Path.{◌≡◌, refl}
use mathlib.Core.Bool.{Bool, true, false, ◌||◌}
use mathlib.Core.List.{List, [], ◌∷◌, ◌++◌}
use mathlib.Core.Option.{Option, none, some}
use native.Mathlib.Omega.{arith}
use stm32_os.Common.Tests.{◌==◌, if◌then◌else◌}

module _ {ℓ} {A : Type ℓ} where
  abbrev pub length : List A → ℕ
  length [] = 0
  length (x ∷ xs) = suc (length xs)

  abbrev pub get_elem? : List A → ℕ → Option A
  get_elem? [] i = none
  get_elem? (x ∷ xs) zero = some x
  get_elem? (x ∷ xs) (suc i) = get_elem? xs i

  pub length-append : (xs ys : List A) → length (xs ++ ys) ≡ length xs + length ys
  length-append [] ys = omega arith
  length-append (x ∷ xs) ys = omega (arith, length-append xs ys)

abbrev pub has : ℕ → List ℕ → Bool
has a [] = false
has a (x ∷ xs) = (a == x) || has a xs

-- No element stands in the list twice.
abbrev pub Distinct : List ℕ → Type 0
Distinct [] = Unit
Distinct (x ∷ xs) = (has x xs ≡ false) × Distinct xs

-- The list without the (first) element `a`.
abbrev pub erase : ℕ → List ℕ → List ℕ
erase a [] = []
erase a (x ∷ xs) = if a == x then xs else x ∷ erase a xs

-- The last element of the list that begins with `a`.
abbrev pub last : ℕ → List ℕ → ℕ
last a [] = a
last a (b ∷ r) = last b r

pub has-append : (a : ℕ) (xs ys : List ℕ) → has a (xs ++ ys) ≡ (has a xs || has a ys)
has-append a [] ys = refl
has-append a (x ∷ xs) ys = ground (arith, has-append a xs ys)

pub has-last : (a : ℕ) (r : List ℕ) → has (last a r) (a ∷ r) ≡ true
has-last a [] = ground arith
has-last a (b ∷ r) = ground (arith, has-last b r)

pub last-append : (a : ℕ) (r : List ℕ) (n : ℕ) → last a (r ++ n ∷ []) ≡ n
last-append a [] n = refl
last-append a (b ∷ r) n = last-append b r n

pub Distinct-snoc : (xs : List ℕ) (n : ℕ) → Distinct xs → has n xs ≡ false → Distinct (xs ++ n ∷ [])
Distinct-snoc [] n d out = (refl, tt)
Distinct-snoc (x ∷ xs) n d out =
    (ground (arith, has-append x xs (n ∷ [])), Distinct-snoc xs n d.1 (ground arith))

pub ne_of_has : (a b : ℕ) (xs : List ℕ) → has a xs ≡ true → has b xs ≡ false → ¬ (a ≡ b)
ne_of_has a b xs p q e = ground arith
