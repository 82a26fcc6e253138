-- ===== src/Ring/Insert.antt =====
-- `insert_before` the head appends at the end of the ring.
use stm32_os.Common.{
  ◌≢◌, ℕ, ◌≡◌, refl, true, false, List, [], ◌∷◌, ◌++◌, arith, has, last, Distinct, has-last,
  has-append, Distinct-snoc,
}
use stm32_os.Ring.{Links, insert_before, self_link}
use stm32_os.Ring.Chain.{Chain, IsRing, previous-last, frame, previous-mem, retarget, Chain-snoc}

-- A structure outside the ring, put before its head, stands at the end.
pub insert_before-append :
    (l : Links) (h : ℕ) (r : List ℕ) (n : ℕ)
    → IsRing l h (h ∷ r)
    → has n (h ∷ r) ≡ false
    → n ≢ 0
    → IsRing (insert_before h n l) h ((h ∷ r) ++ n ∷ [])
unfolding insert_before
insert_before-append l h r n ring out nn =
    let before : l.previous h ≡ last h r = previous-last l h r h ring.3 in
    let m = insert_before h n l in
    (
      refl,
      Distinct-snoc (h ∷ r) n ring.1 out,
      ground (arith, has-append 0 (h ∷ r) (n ∷ [])),
      Chain-snoc m h r n h
          (retarget l m h r h n ring.1 (λ x i ne. ground arith) (λ x i. ground arith)
            (ground (arith, has-last h r)) (ground arith) ring.3)
          (ground (arith, has-last h r)) (ground arith),
    )

-- The first structure of a ring.
pub self_link-IsRing : (l : Links) (n : ℕ) → n ≢ 0 → IsRing (self_link n l) n (n ∷ [])
unfolding self_link
self_link-IsRing l n nn = ground arith

Chain-unsnoc :
    (l : Links) (a : ℕ) (r : List ℕ) (n z : ℕ)
    → Chain l a (r ++ n ∷ []) z
    → Chain l a r n × (l.next n ≡ z) × (l.previous z ≡ n)
Chain-unsnoc l a [] n z c = ((c.0, c.1), c.2.0, c.2.1)
Chain-unsnoc l a (b ∷ r) n z c = let (d, e, f) = Chain-unsnoc l b r n z c.2 in ((c.0, c.1, d), e, f)

-- The same, with the head moved to the structure that was put before it.
pub insert_before-front :
    (l : Links) (h : ℕ) (r : List ℕ) (n : ℕ)
    → IsRing l h (h ∷ r)
    → has n (h ∷ r) ≡ false
    → n ≢ 0
    → IsRing (insert_before h n l) n (n ∷ h ∷ r)
insert_before-front l h r n ring out nn =
    let whole = insert_before-append l h r n ring out nn in
    let (c, e, f) = Chain-unsnoc (insert_before h n l) h r n h whole.3 in
    (refl, (out, ring.1), ground arith, (e, f, c))

insert-head :
    (l : Links) (a b n z : ℕ) (r : List ℕ)
    → Chain l a (b ∷ r) z
    → Distinct (a ∷ b ∷ r)
    → has z (b ∷ r) ≡ false
    → has n (a ∷ b ∷ r) ≡ false
    → ¬ (n ≡ z)
    → Chain (insert_before b n l) a (n ∷ b ∷ r) z
unfolding insert_before
insert-head l a b n z r c d out new nz = (
  ground arith,
  ground arith,
  (
    ground arith,
    ground arith,
    frame l (insert_before b n l) b r z (λ x i. ground arith) (λ x i. ground arith) (ground arith)
        c.2,
  ),
)

insert-skip :
    (l : Links) (a x b n z : ℕ) (r : List ℕ)
    → Chain l a (x ∷ r) z
    → Distinct (a ∷ x ∷ r)
    → has z (x ∷ r) ≡ false
    → has n (a ∷ x ∷ r) ≡ false
    → has b r ≡ true
    → ((insert_before b n l).next a ≡ x) × ((insert_before b n l).previous x ≡ a)
unfolding insert_before
insert-skip l a x b n z r c d out new i = ground (arith, previous-mem l x r z b c.2)

-- In the middle of a chain.
insert-mid :
    (l : Links) (a : ℕ) (xs : List ℕ) (b : ℕ) (r : List ℕ) (n z : ℕ)
    → Chain l a (xs ++ b ∷ r) z
    → Distinct (a ∷ xs ++ b ∷ r)
    → has z (xs ++ b ∷ r) ≡ false
    → has n (a ∷ xs ++ b ∷ r) ≡ false
    → ¬ (n ≡ z)
    → Chain (insert_before b n l) a (xs ++ n ∷ b ∷ r) z
insert-mid l a [] b r n z c d out new nz = insert-head l a b n z r c d out new nz
insert-mid l a (x ∷ xs) b r n z c d out new nz =
    let i : has b (xs ++ b ∷ r) ≡ true = ground (arith, has-append b xs (b ∷ r)) in
    let (f, g) = insert-skip l a x b n z (xs ++ b ∷ r) c d out new i in
    (f, g, insert-mid l x xs b r n z c.2 d.1 (ground arith) (ground arith) nz)

pub Distinct-insert :
    (xs : List ℕ) (n : ℕ) (ys : List ℕ)
    → Distinct (xs ++ ys)
    → has n (xs ++ ys) ≡ false
    → Distinct (xs ++ n ∷ ys)
Distinct-insert [] n ys d out = (out, d)
Distinct-insert (x ∷ xs) n ys d out = (
  ground (arith, has-append x xs ys, has-append x xs (n ∷ ys)),
  Distinct-insert xs n ys d.1 (ground arith),
)

-- A structure put before one that is not the head stands between its neighbours.
pub insert_before-middle :
    (l : Links) (h : ℕ) (xs : List ℕ) (b : ℕ) (r : List ℕ) (n : ℕ)
    → IsRing l h (h ∷ xs ++ b ∷ r)
    → has n (h ∷ xs ++ b ∷ r) ≡ false
    → n ≢ 0
    → IsRing (insert_before b n l) h (h ∷ xs ++ n ∷ b ∷ r)
insert_before-middle l h xs b r n ring out nn = (
  refl,
  (
    ground (arith, has-append h xs (b ∷ r), has-append h xs (n ∷ b ∷ r)),
    Distinct-insert xs n (b ∷ r) ring.1.1 (ground arith),
  ),
  ground (arith, has-append 0 xs (b ∷ r), has-append 0 xs (n ∷ b ∷ r)),
  insert-mid l h xs b r n h ring.3 ring.1 ring.1.0 out (ground arith),
)
