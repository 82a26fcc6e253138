-- ===== src/Timer/Cancel.antt =====
-- `os_timer_delete`: the list without a timer.
use stm32_os.Common.{
  subst, ℕ, ◌+◌, ◌≤◌, ◌<◌, ◌^◌, ◌≡◌, ◌≢◌, true, false, List, [], ◌∷◌, arith, ◌==◌, if◌then◌else◌,
  has, has-last, erase, last, Distinct, update, Bool-cases, inl, inr, refl,
}
use stm32_os.Port.{add32}
use stm32_os.Ring.{Links, unlink}
use stm32_os.Ring.Chain.{Chain, IsRing, next-mem}
use stm32_os.Ring.Unlink.{unlink-IsRing, unlink_self}
use stm32_os.Timer.{Timers, disarm}
use stm32_os.Timer.Deltas.{Deltas, addrs, Ticks, Holds, expiry, Ticks-frame}

abbrev pub ticks_of : ℕ → Deltas → ℕ
ticks_of n [] = 0
ticks_of n ((x, d) ∷ ds) = if n == x then d else ticks_of n ds

-- Without a timer that is not the head: the next one takes over its ticks.
abbrev pub cancel_behind : ℕ → Deltas → Deltas
cancel_behind n [] = []
cancel_behind n ((x, d) ∷ []) = if n == x then [] else (x, d) ∷ []
cancel_behind n ((x, d) ∷ (y, e) ∷ ds) =
    if n == x then (y, add32 e d) ∷ ds else (x, d) ∷ cancel_behind n ((y, e) ∷ ds)

-- The list is circular, so the ticks of the last timer go to the head.
abbrev pub cancel : ℕ → Deltas → Deltas
cancel n [] = []
cancel n ((x, d) ∷ []) = if n == x then [] else (x, d) ∷ []
cancel n ((x, d) ∷ (y, e) ∷ ds) =
    if n == x
    then (y, add32 e d) ∷ ds
    else (x, if n == last y (addrs ds) then add32 d (ticks_of n ((y, e) ∷ ds)) else d)
      ∷ cancel_behind n ((y, e) ∷ ds)

addrs-cancel_behind : (n : ℕ) (ds : Deltas) → addrs (cancel_behind n ds) ≡ erase n (addrs ds)
addrs-cancel_behind n [] = refl
addrs-cancel_behind n ((x, d) ∷ []) = ground arith
addrs-cancel_behind n ((x, d) ∷ (y, e) ∷ ds) = ground (arith, addrs-cancel_behind n ((y, e) ∷ ds))

pub addrs-cancel : (n : ℕ) (ds : Deltas) → addrs (cancel n ds) ≡ erase n (addrs ds)
addrs-cancel n [] = refl
addrs-cancel n ((x, d) ∷ []) = ground arith
addrs-cancel n ((x, d) ∷ (y, e) ∷ ds) = ground (arith, addrs-cancel_behind n ((y, e) ∷ ds))

-- Only the last element of a ring is followed by the head.
next-last :
    (l : Links) (a : ℕ) (r : List ℕ) (z n : ℕ)
    → Chain l a r z
    → Distinct (a ∷ r)
    → has z r ≡ false
    → has n (a ∷ r) ≡ true
    → (l.next n == z) ≡ (n == last a r)
next-last l a [] z n c d out i = ground arith
next-last l a (b ∷ r) z n c d out i = ground (arith, next-last l b r z n c.2, has-last b r)

Ticks-ticks_of :
    (rem : ℕ → ℕ) (n : ℕ) (ds : Deltas)
    → Ticks rem ds
    → has n (addrs ds) ≡ true
    → rem n ≡ ticks_of n ds
Ticks-ticks_of rem n [] t i = absurd (ground arith)
Ticks-ticks_of rem n ((x, d) ∷ ds) t i = ground (arith, Ticks-ticks_of rem n ds)

-- The ticks after `timer_next->remaining_ticks += timer->remaining_ticks`.
abbrev handed : Links → ℕ → (ℕ → ℕ) → ℕ → ℕ
handed l n rem = update rem (l.next n) (add32 (rem (l.next n)) (rem n))

Ticks-cancel_behind :
    (l : Links) (rem : ℕ → ℕ) (a z n : ℕ) (ds : Deltas)
    → Chain l a (addrs ds) z
    → Distinct (addrs ds)
    → has z (addrs ds) ≡ false
    → has n (addrs ds) ≡ true
    → Ticks rem ds
    → Ticks (handed l n rem) (cancel_behind n ds)
Ticks-cancel_behind l rem a z n [] c d out i t = tt
Ticks-cancel_behind l rem a z n ((x, d) ∷ []) c dis out i t =
    let e : (n == x) ≡ true = ground arith in rw e tt
Ticks-cancel_behind l rem a z n ((x, d) ∷ (y, e) ∷ ds) c dis out i t = elim (Bool-cases (n == x)) [
  | inl is ↦
      rw is (
        ground arith,
        ground arith,
        Ticks-frame rem (handed l n rem) ds (λ w j. ground arith) t.2.2,
      )
  | inr is ↦ rw is (
    ground (arith, next-mem l x (y ∷ addrs ds) z n c.2),
    t.1,
    Ticks-cancel_behind l rem x z n ((y, e) ∷ ds) c.2 dis.1 (ground arith) (ground arith) t.2,
  )
]

cancel-Ticks :
    (l : Links) (rem : ℕ → ℕ) (p n : ℕ) (ds : Deltas)
    → IsRing l p (addrs ds)
    → has n (addrs ds) ≡ true
    → Ticks rem ds
    → Ticks (handed l n rem) (cancel n ds)
cancel-Ticks l rem p n [] ring i t = tt
cancel-Ticks l rem p n ((x, d) ∷ []) ring i t = let e : (n == x) ≡ true = ground arith in rw e tt
cancel-Ticks l rem p n ((x, d) ∷ (y, e) ∷ ds) ring i t = elim (Bool-cases (n == x)) [
  | inl is ↦
      rw is (
        ground arith,
        ground arith,
        Ticks-frame rem (handed l n rem) ds (λ w j. ground arith) t.2.2,
      )
  | inr is ↦
      let i' : has n (y ∷ addrs ds) ≡ true = ground arith in
      rw is (
        ground (
          arith,
          next-last l x (y ∷ addrs ds) x n ring.3 ring.1 ring.1.0 i,
          Ticks-ticks_of rem n ((y, e) ∷ ds) t.2 i',
        ),
        ground arith,
        Ticks-cancel_behind l rem x x n ((y, e) ∷ ds) ring.3 ring.1.1 ring.1.0 i' t.2,
      )
]

-- `os_timer_delete` of a timer that is in the list leaves the list that `cancel` describes.
pub disarm-cancel :
    (n : ℕ) (s : Timers) (ds : Deltas)
    → Holds s ds
    → has n (addrs ds) ≡ true
    → Holds (disarm n s) (cancel n ds)
unfolding disarm
disarm-cancel n s ds held i = record {
  ring =
      let whole = unlink-IsRing s.links s.current n (addrs ds) held.ring i in
      rw addrs-cancel (
        subst (λ h. IsRing (unlink n s.links) h (erase n (addrs ds)))
          (ground (arith, unlink_self s.links n)) whole);
  ticks = cancel-Ticks s.links s.remaining_ticks s.current n ds held.ring i held.ticks;
}

-- All ticks of the list, which are below 2 ^ 32 where no sum wraps.
abbrev pub total : Deltas → ℕ
total [] = 0
total ((x, d) ∷ ds) = d + total ds

ticks_of-le : (n : ℕ) (ds : Deltas) → ticks_of n ds ≤ total ds
ticks_of-le n [] = omega arith
ticks_of-le n ((x, d) ∷ ds) = ground (arith, ticks_of-le n ds)

expiry-cancel_behind :
    (x n : ℕ) (ds : Deltas)
    → x ≢ n
    → has x (addrs ds) ≡ true
    → Distinct (addrs ds)
    → total ds < 2 ^ 32
    → expiry x (cancel_behind n ds) ≡ expiry x ds
expiry-cancel_behind x n [] ne i dis lt = refl
expiry-cancel_behind x n ((y, d) ∷ []) ne i dis lt = ground arith
expiry-cancel_behind x n ((y, d) ∷ (z, e) ∷ ds) ne i dis lt = elim (Bool-cases (n == y)) [
  | inl is ↦ rw is (ground arith)
  | inr is ↦ rw is (ground (arith, expiry-cancel_behind x n ((z, e) ∷ ds) ne))
]

-- When a timer is deleted the others fire when they would have fired, unless it is the last of
-- several: then each other timer fires later, by the ticks of the deleted one.
pub expiry-cancel :
    (x n : ℕ) (ds : Deltas)
    → x ≢ n
    → has x (addrs ds) ≡ true
    → has n (addrs ds) ≡ true
    → Distinct (addrs ds)
    → total ds < 2 ^ 32
    → expiry x (cancel n ds) ≡ expiry x ds + (if n == last n (addrs ds) then ticks_of n ds else 0)
expiry-cancel x n [] ne i j dis lt = absurd (ground arith)
expiry-cancel x n ((y, d) ∷ []) ne i j dis lt = absurd (ground arith)
expiry-cancel x n ((y, d) ∷ (z, e) ∷ ds) ne i j dis lt = elim (Bool-cases (n == y)) [
  | inl is ↦ rw is (ground (arith, has-last z (addrs ds)))
  | inr is ↦ rw is (
      ground (
        arith,
        expiry-cancel_behind x n ((z, e) ∷ ds) ne,
        ticks_of-le n ((z, e) ∷ ds),
        dis.1,
        has-last z (addrs ds),
      ))
]
