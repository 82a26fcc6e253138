-- ===== src/Ring/Unlink.antt =====
-- `unlink` takes one structure out of its ring.
use stm32_os.Common.{
  ℕ, ◌≡◌, ◌≢◌, refl, true, false, List, [], ◌∷◌, arith, subst, subst₂, ◌==◌, ==-true, if◌then◌else◌,
  has, erase, Distinct, has-last, Bool-cases, inl, inr,
}
use stm32_os.Ring.{Links, unlink}
use stm32_os.Ring.Chain.{Chain, IsRing, previous-last, retarget, frame, previous-mem, next-mem}

pub has-erase : (x n : ℕ) (r : List ℕ) → has x r ≡ false → has x (erase n r) ≡ false
has-erase x n [] out = refl
has-erase x n (b ∷ r) out = ground (arith, has-erase x n r)

pub Distinct-erase : (n : ℕ) (r : List ℕ) → Distinct r → Distinct (erase n r)
Distinct-erase n [] d = tt
Distinct-erase n (b ∷ r) d = elim (Bool-cases (n == b)) [
  | inl e ↦ rw e d.1
  | inr e ↦ rw e (has-erase b n r d.0, Distinct-erase n r d.1)
]

pub has-erase_self : (n : ℕ) (r : List ℕ) → Distinct r → has n (erase n r) ≡ false
has-erase_self n [] d = refl
has-erase_self n (b ∷ r) d = ground (arith, has-erase_self n r d.1)

pub has-erase_ne : (x n : ℕ) (r : List ℕ) → x ≢ n → has x r ≡ true → has x (erase n r) ≡ true
has-erase_ne x n [] ne i = i
has-erase_ne x n (b ∷ r) ne i = ground (arith, has-erase_ne x n r ne)

-- The structure itself keeps its links.
pub unlink_self :
    (l : Links) (n : ℕ)
    → ((unlink n l).next n ≡ l.next n) × ((unlink n l).previous n ≡ l.previous n)
unfolding unlink
unlink_self l n = ground arith

unlink-head :
    (l : Links) (a n z : ℕ) (r : List ℕ)
    → Chain l a (n ∷ r) z
    → Distinct (a ∷ n ∷ r)
    → has z (n ∷ r) ≡ false
    → Chain (unlink n l) a r z
unfolding unlink
unlink-head l a n z [] c d out = ground arith
unlink-head l a n z (y ∷ r) c d out = (
  ground arith,
  ground arith,
  frame l (unlink n l) y r z (λ x i. ground arith) (λ x i. ground arith) (ground arith) c.2.2,
)

unlink-skip :
    (l : Links) (a b n z : ℕ) (r : List ℕ)
    → Chain l a (b ∷ r) z
    → Distinct (a ∷ b ∷ r)
    → has z (b ∷ r) ≡ false
    → has n r ≡ true
    → ((unlink n l).next a ≡ b) × ((unlink n l).previous b ≡ a)
unfolding unlink
unlink-skip l a b n z r c d out i =
    (ground (arith, previous-mem l b r z n c.2), ground (arith, next-mem l b r z n c.2))

-- An element other than the first of a chain is taken out.
pub unlink-erase :
    (l : Links) (a n z : ℕ) (r : List ℕ)
    → Chain l a r z
    → Distinct (a ∷ r)
    → has z r ≡ false
    → has n r ≡ true
    → Chain (unlink n l) a (erase n r) z
unlink-erase l a n z [] c d out i = absurd (ground arith)
unlink-erase l a n z (b ∷ r) c d out i = elim (Bool-cases (n == b)) [
  | inl e ↦
      rw e (subst (λ y. Chain (unlink y l) a r z) (ground arith) (unlink-head l a b z r c d out))
  | inr e ↦
      let i' : has n r ≡ true = ground arith in
      let (f, g) = unlink-skip l a b n z r c d out i' in
      rw e (f, g, unlink-erase l b n z r c.2 d.1 (ground arith) i')
]

-- Taking out the first element of a ring leaves the ring that begins with the second.
unlink-front :
    (l : Links) (x b : ℕ) (r : List ℕ) → IsRing l x (x ∷ b ∷ r) → IsRing (unlink x l) b (b ∷ r)
unfolding unlink
unlink-front l x b r ring = (
  refl,
  ring.1.1,
  ground arith,
  retarget l (unlink x l) b r x b ring.1.1
      (λ y i ne. ground (arith, previous-last l x (b ∷ r) x ring.3)) (λ y i. ground arith)
      (ground (arith, previous-last l x (b ∷ r) x ring.3, has-last b r))
      (ground (arith, previous-last l x (b ∷ r) x ring.3, has-last b r)) ring.3.2,
)

-- The head of a ring without `n`: what the sources compute when `n` may be the head.
abbrev pub head_without : ℕ → ℕ → Links → ℕ
head_without n h l = if h == n then (if l.next n == n then 0 else l.next n) else h

-- Any element is taken out of its ring.
pub unlink-IsRing :
    (l : Links) (h n : ℕ) (xs : List ℕ)
    → IsRing l h xs
    → has n xs ≡ true
    → IsRing (unlink n l) (head_without n h l) (erase n xs)
unlink-IsRing l h n [] ring i = absurd (ground arith)
unlink-IsRing l h n (x ∷ []) ring i = rw (==-true n x (ground arith)) (ground arith)
unlink-IsRing l h n (x ∷ b ∷ r) ring i = elim (Bool-cases (n == x)) [
  | inl e ↦ rw e (
      subst₂ (λ y p. IsRing (unlink y l) p (b ∷ r)) (ground arith) (ground arith)
        (unlink-front l x b r (refl, ring.1, ring.2, ring.3)))
  | inr e ↦ rw e (
    ground arith,
    (has-erase x n (b ∷ r) ring.1.0, Distinct-erase n (b ∷ r) ring.1.1),
    ground (arith, has-erase 0 n (b ∷ r)),
    unlink-erase l x n x (b ∷ r) ring.3 ring.1 ring.1.0 (ground arith),
  )
]

-- Taking out a structure twice is taking it out once.
pub unlink-unlink :
    (l : Links) (n x : ℕ)
    → ((unlink n (unlink n l)).next x ≡ (unlink n l).next x)
      × ((unlink n (unlink n l)).previous x ≡ (unlink n l).previous x)
unfolding unlink
unlink-unlink l n x = ground arith

-- To take out a structure that is alone in its ring changes no link.
pub unlink_alone :
    (l : Links) (n x : ℕ)
    → l.next n ≡ n
    → l.previous n ≡ n
    → ((unlink n l).next x ≡ l.next x) × ((unlink n l).previous x ≡ l.previous x)
unfolding unlink
unlink_alone l n x e f = ground arith
