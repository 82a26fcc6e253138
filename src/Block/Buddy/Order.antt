-- ===== src/Block/Buddy/Order.antt =====
-- The place that memory_block_insert finds for a block in its list.
use stm32_os.Common.{
  ℕ, zero, suc, ◌≤◌, ◌<◌, ◌≡◌, ◌≢◌, ◌⊎◌, refl, sym, ap, ◌∙◌, subst, List, [], ◌∷◌, ◌++◌, some,
  arith, ◌==◌, ==-true, Bool-cases, inl, inr, ltb, ◌&&◌, if◌then◌else◌, true, false, has,
  has-append, length, has-last, ◌||◌,
}
use stm32_os.Ring.{Links, insert_before}
use stm32_os.Ring.Chain.{Chain, IsRing, previous-last, previous-mem}
use stm32_os.Ring.Insert.{insert_before-append, insert_before-front, insert_before-middle}
use stm32_os.Block.Buddy.{find_next}

-- The addresses of the blocks rise along the list.
abbrev pub Sorted : (ℕ → ℕ) → List ℕ → Type 0
Sorted start [] = Unit
Sorted start (x ∷ []) = Unit
Sorted start (x ∷ y ∷ xs) = (start x ≤ start y) × Sorted start (y ∷ xs)

-- The list with one more block, before the first one that lies higher.
abbrev pub place : (ℕ → ℕ) → ℕ → List ℕ → List ℕ
place start n [] = n ∷ []
place start n (x ∷ xs) = if ltb (start n) (start x) then n ∷ x ∷ xs else x ∷ place start n xs

place-Sorted_behind :
    (start : ℕ → ℕ) (n x : ℕ) (xs : List ℕ)
    → start x ≤ start n
    → Sorted start (x ∷ xs)
    → Sorted start (place start n xs)
    → Sorted start (x ∷ place start n xs)
place-Sorted_behind start n x [] le s rest = (le, tt)
place-Sorted_behind start n x (y ∷ xs) le s rest = elim (Bool-cases (ltb (start n) (start y))) [
  | inl e ↦ rw e (le, (ground arith, s.1))
  | inr e ↦
      subst (λ t. Sorted start (x ∷ (if t then n ∷ y ∷ xs else y ∷ place start n xs))) (sym e)
        (s.0, subst (λ t. Sorted start (if t then n ∷ y ∷ xs else y ∷ place start n xs)) e rest)
]

pub Sorted-tail : (start : ℕ → ℕ) (x : ℕ) (xs : List ℕ) → Sorted start (x ∷ xs) → Sorted start xs
Sorted-tail start x [] s = tt
Sorted-tail start x (y ∷ xs) s = s.1

pub place-Sorted :
    (start : ℕ → ℕ) (n : ℕ) (xs : List ℕ) → Sorted start xs → Sorted start (place start n xs)
place-Sorted start n [] s = tt
place-Sorted start n (x ∷ xs) s = elim (Bool-cases (ltb (start n) (start x))) [
  | inl e ↦ rw e (ground arith, s)
  | inr e ↦ rw e (
      place-Sorted_behind start n x xs (ground arith) s
        (place-Sorted start n xs (Sorted-tail start x xs s)))
]

-- Where the loop stops: at the first block that lies higher, or at the head.
abbrev pub stop : (start : ℕ → ℕ) (head n : ℕ) → List ℕ → ℕ
stop start head n [] = head
stop start head n (x ∷ xs) = if ltb (start n) (start x) then x else stop start head n xs

pub find_next-stop :
    (k : ℕ) (start : ℕ → ℕ) (l : Links) (head n x : ℕ) (r : List ℕ)
    → Chain l x r head
    → has head r ≡ false
    → length r < k
    → find_next k start l.next head n x ≡ some (stop start head n (x ∷ r))
unfolding find_next
find_next-stop zero start l head n x r c out fuel = ground arith
find_next-stop (suc k) start l head n x [] c out fuel =
    elim (Bool-cases (ltb (start n) (start x))) [
      | inl e ↦ rw e refl
      | inr e ↦ rw (e, ==-true (l.next x) head c.0) (ap some c.0)
    ]
find_next-stop (suc k) start l head n x (b ∷ r) c out fuel =
    elim (Bool-cases (ltb (start n) (start x))) [
      | inl e ↦ rw e refl
      | inr e ↦
          let ne : (b == head) ≡ false = ground arith in
          let at : (l.next x == head) ≡ false = ap (λ y. y == head) c.0 ∙ ne in
          rw (e, at, c.0) (find_next-stop k start l head n b r c.2 (ground arith) (omega arith))
    ]

-- The list is cut where the loop stops.
pub record Cut (start : ℕ → ℕ) (head n : ℕ) (xs : List ℕ) : Type 0 where
  pub before : List ℕ
  pub behind : List ℕ
  pub whole : xs ≡ before ++ stop start head n xs ∷ behind
  pub placed : place start n xs ≡ before ++ n ∷ stop start head n xs ∷ behind
  pub higher : start n < start (stop start head n xs)

-- No block lies higher.
pub record Top (start : ℕ → ℕ) (head n : ℕ) (xs : List ℕ) : Type 0 where
  pub stops : stop start head n xs ≡ head
  pub placed : place start n xs ≡ xs ++ n ∷ []
  pub lower : (x : ℕ) → has x xs ≡ true → start x ≤ start n

pub cut : (start : ℕ → ℕ) (head n : ℕ) (xs : List ℕ) → Cut start head n xs ⊎ Top start head n xs
cut start head n [] = inr (record { stops = refl; placed = refl; lower = λ x i. ground arith })
cut start head n (x ∷ xs) = elim (Bool-cases (ltb (start n) (start x))) [
  | inl e ↦ inl (record {
    before = [];
    behind = xs;
    whole = rw e refl;
    placed = rw e refl;
    higher = rw e (ground arith);
  })
  | inr e ↦ elim (cut start head n xs) [
    | inl c ↦ inl (record {
      before = x ∷ c.before;
      behind = c.behind;
      whole = rw e (ap (λ t. x ∷ t) c.whole);
      placed = rw e (ap (λ t. x ∷ t) c.placed);
      higher = rw e (c.higher);
    })
    | inr t ↦ inr (record {
      stops = rw e (t.stops);
      placed = rw e (ap (λ ys. x ∷ ys) t.placed);
      lower = λ y i. ground (arith, t.lower y);
    })
  ]
]

-- The head of the list after the block was put before `y`.
abbrev pub new_head : (start : ℕ → ℕ) (head n y : ℕ) → ℕ
new_head start head n y = if (y == head) && ltb (start n) (start y) then n else head

new_head_same :
    (start : ℕ → ℕ) (h n y : ℕ)
    → ((y == h) && ltb (start n) (start y)) ≡ false
    → new_head start h n y ≡ h
new_head_same start h n y e = rw e refl

insert-middle :
    (start : ℕ → ℕ) (l : Links) (h n : ℕ) (r : List ℕ)
    → IsRing l h (h ∷ r)
    → has n (h ∷ r) ≡ false
    → n ≢ 0
    → Cut start h n r
    → (let y = stop start h n r in
        IsRing (insert_before y n l) (new_head start h n y) (h ∷ place start n r))
insert-middle start l h n r ring out nn c =
    let y = stop start h n r in
    let bs = c.before in
    let zs = c.behind in
    let ring' : IsRing l h (h ∷ bs ++ y ∷ zs) = subst (λ t. IsRing l h (h ∷ t)) c.whole ring in
    let out' : has n (h ∷ bs ++ y ∷ zs) ≡ false = subst (λ t. has n (h ∷ t) ≡ false) c.whole out in
    let ne : (y == h) ≡ false = ground (arith, has-append h bs (y ∷ zs), ring'.1.0) in
    subst (λ p. IsRing (insert_before y n l) p (h ∷ place start n r))
      (sym (new_head_same start h n y (rw ne refl)))
      (subst (λ t. IsRing (insert_before y n l) h (h ∷ t)) (sym c.placed)
        (insert_before-middle l h bs y zs n ring' out' nn))

insert-last :
    (start : ℕ → ℕ) (l : Links) (h n : ℕ) (r : List ℕ)
    → IsRing l h (h ∷ r)
    → has n (h ∷ r) ≡ false
    → n ≢ 0
    → ltb (start n) (start h) ≡ false
    → Top start h n r
    → (let y = stop start h n r in
        IsRing (insert_before y n l) (new_head start h n y) (h ∷ place start n r))
insert-last start l h n r ring out nn e t =
    subst (λ y. IsRing (insert_before y n l) (new_head start h n y) (h ∷ place start n r))
      (sym t.stops)
      (subst (λ p. IsRing (insert_before h n l) p (h ∷ place start n r))
        (sym (new_head_same start h n h (rw (e, ==-true h h refl) refl)))
        (subst (λ xs. IsRing (insert_before h n l) h (h ∷ xs)) (sym t.placed)
          (insert_before-append l h r n ring out nn)))

-- The links and the head that `link_block` leaves are those of the list with the block at its
-- place.
pub insert_before-place :
    (start : ℕ → ℕ) (l : Links) (h n : ℕ) (r : List ℕ)
    → IsRing l h (h ∷ r)
    → has n (h ∷ r) ≡ false
    → n ≢ 0
    → (let y = stop start h n (h ∷ r) in
        IsRing (insert_before y n l) (new_head start h n y) (place start n (h ∷ r)))
insert_before-place start l h n r ring out nn = elim (Bool-cases (ltb (start n) (start h))) [
  | inl e ↦
      let head : new_head start h n h ≡ n = rw (e, ==-true h h refl) refl in
      rw e (
        subst (λ p. IsRing (insert_before h n l) p (n ∷ h ∷ r)) (sym head)
          (insert_before-front l h r n ring out nn))
  | inr e ↦ rw e (elim (cut start h n r) [
    | inl c ↦ insert-middle start l h n r ring out nn c
    | inr t ↦ insert-last start l h n r ring out nn e t
  ])
]

insert_before-spares_at :
    (l : Links) (h n : ℕ) (r : List ℕ) (x y : ℕ)
    → IsRing l h (h ∷ r)
    → has x (n ∷ h ∷ r) ≡ false
    → ((y == h) || has y (h ∷ r)) ≡ true
    → (let m = insert_before y n l in (m.next x ≡ l.next x) × (m.previous x ≡ l.previous x))
unfolding insert_before
insert_before-spares_at l h n r x y ring out i =
    let before : has (l.previous y) (h ∷ r) ≡ true =
      ground (arith, previous-mem l h r h y ring.3, previous-last l h r h ring.3, has-last h r) in
    ground arith

stop-mem :
    (start : ℕ → ℕ) (h n : ℕ) (xs : List ℕ)
    → ((stop start h n xs == h) || has (stop start h n xs) xs) ≡ true
stop-mem start h n [] = ground arith
stop-mem start h n (x ∷ xs) = ground (arith, stop-mem start h n xs)

pub insert_before-spares :
    (start : ℕ → ℕ) (l : Links) (h n : ℕ) (r : List ℕ) (x : ℕ)
    → IsRing l h (h ∷ r)
    → has x (n ∷ h ∷ r) ≡ false
    → (let m = insert_before (stop start h n (h ∷ r)) n l in
        (m.next x ≡ l.next x) × (m.previous x ≡ l.previous x))
insert_before-spares start l h n r x ring out =
    insert_before-spares_at l h n r x (stop start h n (h ∷ r)) ring out (stop-mem start h n (h ∷ r))
