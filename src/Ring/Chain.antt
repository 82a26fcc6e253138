-- ===== src/Ring/Chain.antt =====
-- What a circular list stands for: the addresses from its head on.
use stm32_os.Common.{
  refl, Distinct-snoc, has-append, ◌||◌, ℕ, ◌≡◌, ◌≢◌, true, false, List, [], ◌∷◌, ◌++◌, arith, ◌==◌,
  has, Distinct, last, has-last,
}
use stm32_os.Ring.{Links}

-- From `a` the links lead through `r` to `z`, and back.
abbrev pub Chain : Links → ℕ → List ℕ → ℕ → Type 0
Chain l a [] z = (l.next a ≡ z) × (l.previous z ≡ a)
Chain l a (b ∷ r) z = (l.next a ≡ b) × (l.previous b ≡ a) × Chain l b r z

-- The pointer `p` heads the circular list of the distinct structures `xs`; NULL is the empty one.
abbrev pub IsRing : Links → ℕ → List ℕ → Type 0
IsRing l p [] = p ≡ 0
IsRing l p (x ∷ r) = (p ≡ x) × Distinct (x ∷ r) × (has 0 (x ∷ r) ≡ false) × Chain l x r x

pub previous-last :
    (l : Links) (a : ℕ) (r : List ℕ) (z : ℕ) → Chain l a r z → l.previous z ≡ last a r
previous-last l a [] z c = c.1
previous-last l a (b ∷ r) z c = previous-last l b r z c.2

-- A chain survives changes of the links that spare it.
pub frame :
    (l m : Links) (a : ℕ) (r : List ℕ) (z : ℕ)
    → ((x : ℕ) → has x (a ∷ r) ≡ true → m.next x ≡ l.next x)
    → ((x : ℕ) → has x r ≡ true → m.previous x ≡ l.previous x)
    → m.previous z ≡ l.previous z
    → Chain l a r z
    → Chain m a r z
frame l m a [] z f g e c = (ground (arith, f a), ground arith)
frame l m a (b ∷ r) z f g e c = (
  ground (arith, f a),
  ground (arith, g b),
  frame l m b r z (λ x i. f x (ground arith)) (λ x i. g x (ground arith)) e c.2,
)

-- Give the end of a chain a new successor: only the last element and the new end change.
pub retarget :
    (l m : Links) (a : ℕ) (r : List ℕ) (z w : ℕ)
    → Distinct (a ∷ r)
    → ((x : ℕ) → has x (a ∷ r) ≡ true → ¬ (x ≡ last a r) → m.next x ≡ l.next x)
    → ((x : ℕ) → has x r ≡ true → m.previous x ≡ l.previous x)
    → m.next (last a r) ≡ w
    → m.previous w ≡ last a r
    → Chain l a r z
    → Chain m a r w
retarget l m a [] z w d f g e e' c = (e, e')
retarget l m a (b ∷ r) z w d f g e e' c = (
  ground (arith, f a, has-last b r),
  ground (arith, g b),
  retarget l m b r z w d.1 (λ x i ne. f x (ground arith) ne) (λ x i. g x (ground arith)) e e' c.2,
)

-- A chain with one more element at its end.
pub Chain-snoc :
    (l : Links) (a : ℕ) (r : List ℕ) (n z : ℕ)
    → Chain l a r n
    → l.next n ≡ z
    → l.previous z ≡ n
    → Chain l a (r ++ n ∷ []) z
Chain-snoc l a [] n z c e e' = (c.0, c.1, (e, e'))
Chain-snoc l a (b ∷ r) n z c e e' = (c.0, c.1, Chain-snoc l b r n z c.2 e e')

-- The head moves on: the ring from its second element.
pub Chain-rotate :
    (l : Links) (x b : ℕ) (r : List ℕ) → Chain l x (b ∷ r) x → Chain l b (r ++ x ∷ []) b
Chain-rotate l x b r c = Chain-snoc l b r x b c.2 c.0 c.1

-- The neighbours of an element of a chain are in the chain.
pub previous-mem :
    (l : Links) (a : ℕ) (r : List ℕ) (z n : ℕ)
    → Chain l a r z
    → has n r ≡ true
    → has (l.previous n) (a ∷ r) ≡ true
previous-mem l a [] z n c i = ground arith
previous-mem l a (b ∷ r) z n c i = ground (arith, previous-mem l b r z n c.2)

pub next-mem :
    (l : Links) (a : ℕ) (r : List ℕ) (z n : ℕ)
    → Chain l a r z
    → has n (a ∷ r) ≡ true
    → (has (l.next n) r || (l.next n == z)) ≡ true
next-mem l a [] z n c i = ground arith
next-mem l a (b ∷ r) z n c i = ground (arith, next-mem l b r z n c.2)

-- The head moves on to the next structure: the same ring, begun there.
pub IsRing-rotate :
    (l : Links) (x b : ℕ) (r : List ℕ) → IsRing l x (x ∷ b ∷ r) → IsRing l b ((b ∷ r) ++ x ∷ [])
IsRing-rotate l x b r ring = (
  refl,
  Distinct-snoc (b ∷ r) x ring.1.1 ring.1.0,
  ground (arith, has-append 0 (b ∷ r) (x ∷ [])),
  Chain-rotate l x b r ring.3,
)

pub IsRing-Distinct : (l : Links) (p : ℕ) (xs : List ℕ) → IsRing l p xs → Distinct xs
IsRing-Distinct l p [] ring = tt
IsRing-Distinct l p (x ∷ r) ring = ring.1

pub IsRing-ne_null : (l : Links) (p n : ℕ) (xs : List ℕ) → IsRing l p xs → has n xs ≡ true → n ≢ 0
IsRing-ne_null l p n [] ring i e = ground arith
IsRing-ne_null l p n (x ∷ r) ring i e = ground arith

-- A ring survives changes that spare it.
pub IsRing-frame :
    (l m : Links) (p : ℕ) (xs : List ℕ)
    → ((x : ℕ) → has x xs ≡ true → (m.next x ≡ l.next x) × (m.previous x ≡ l.previous x))
    → IsRing l p xs
    → IsRing m p xs
IsRing-frame l m p [] same ring = ring
IsRing-frame l m p (x ∷ r) same ring = (
  ring.0,
  ring.1,
  ring.2,
  frame l m x r x (λ y i. (same y i).0) (λ y i. (same y (ground arith)).1)
      ((same x (ground arith)).1) ring.3,
)
