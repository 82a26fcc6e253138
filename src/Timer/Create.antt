-- ===== src/Timer/Create.antt =====
-- `os_timer_create`: where the new timer goes.
use Prim.Native.Nat.{bit_or}
use stm32_os.Common.{
  ℕ, zero, suc, ◌-◌, ◌≤◌, ◌<◌, ◌^◌, ◌≡◌, ◌≢◌, refl, subst, sym, true, false, some, [], ◌∷◌, ◌++◌,
  arith, leb, ltb, has, length, Bool-cases, inl, inr, update,
}
use stm32_os.Port.{sub32}
use stm32_os.Ring.{Links}
use stm32_os.Ring.Chain.{Chain, IsRing}
use stm32_os.Timer.{Timers, find_slot, arm}
use stm32_os.Timer.Deltas.{
  Deltas, addrs, Ticks, Holds, passed, behind, left, schedule, Ticks-frame, Ticks-insert,
  addrs-append, passed-append-behind, left-le,
}
use stm32_os.Ring.{insert_before, self_link}
use stm32_os.Ring.Insert.{
  insert_before-append, insert_before-front, insert_before-middle, self_link-IsRing,
}
use mathlib.Core.List.{append-nil}

-- The address of the first timer, or that of the head where there is none.
abbrev pub first_or : ℕ → Deltas → ℕ
first_or h [] = h
first_or h ((x, d) ∷ ds) = x

-- The loop stops at the timer that the new one precedes, with the ticks that are left.
find_slot-behind :
    (k : ℕ) (l : Links) (h n x d t : ℕ) (ds : Deltas) (rem : ℕ → ℕ)
    → Chain l x (addrs ds) h
    → Ticks rem ((x, d) ∷ ds)
    → rem n ≡ t
    → d ≤ t
    → t < 2 ^ 32
    → has h (addrs ds) ≡ false
    → has n (x ∷ addrs ds) ≡ false
    → length ds < k
    → (rem' : ℕ → ℕ) × (find_slot k l h n x rem ≡ some (first_or h (behind (t - d) ds), rem'))
      × (rem' n ≡ left (t - d) ds)
      × ((y : ℕ) → ¬ (y ≡ n) → rem' y ≡ rem y)
unfolding find_slot
find_slot-behind zero l h n x d t ds rem c ticks e le lt out new fuel = absurd (omega arith)
find_slot-behind (suc k) l h n x d t [] rem c ticks e le lt out new fuel =
    (update rem n (sub32 (rem n) (rem x)), ground arith, ground arith, λ y ne. ground arith)
find_slot-behind (suc k) l h n x d t ((y, f) ∷ ds) rem c ticks e le lt out new fuel =
    let rem1 : ℕ → ℕ = update rem n (sub32 (rem n) (rem x)) in
    elim (Bool-cases (leb f (t - d))) [
      | inl more ↦
          let (rem', found, rest, same) =
            find_slot-behind k l h n y f (t - d) ds rem1 c.2
              (Ticks-frame rem rem1 ((y, f) ∷ ds) (λ z i. ground arith) ticks.2) (ground arith)
              (ground arith) (ground arith) (ground arith) (ground arith) (omega arith) in
          (rem', ground arith, ground arith, λ z ne. ground (arith, same z))
      | inr stop ↦ (rem1, ground arith, ground arith, λ z ne. ground arith)
    ]

insert-IsRing :
    (l : Links) (x : ℕ) (ps : Deltas) (n c : ℕ) (bs : Deltas)
    → IsRing l x (x ∷ addrs (ps ++ bs))
    → has n (x ∷ addrs (ps ++ bs)) ≡ false
    → n ≢ 0
    → IsRing (insert_before (first_or x bs) n l) x (x ∷ addrs (ps ++ (n, c) ∷ bs))
insert-IsRing l x ps n c [] ring out nn =
    rw addrs-append
      (insert_before-append l x (addrs ps) n (rw append-nil at ring) (rw append-nil at out) nn)
insert-IsRing l x ps n c ((b, e) ∷ bs) ring out nn = rw addrs-append (
    insert_before-middle l x (addrs ps) b (addrs bs) n (rw addrs-append at ring)
      (rw addrs-append at out) nn)

module _ (k timer t : ℕ) (s : Timers) (e : s.remaining_ticks timer ≡ t) (nn : timer ≢ 0)
    (lt : t < 2 ^ 32) where
  arm-first : Holds s [] → (s' : Timers) × (arm k timer t s ≡ some s') × Holds s' ((timer, t) ∷ [])
  unfolding arm
  arm-first held = (
    record s { links = self_link timer s.links; current = timer; cr1 = bit_or s.cr1 1 },
    ground arith,
    record { ring = self_link-IsRing s.links timer nn; ticks = (e, lt, tt) },
  )

  module _ (x d : ℕ) (ds : Deltas) (held : Holds s ((x, d) ∷ ds))
      (new : has timer (x ∷ addrs ds) ≡ false) where
    arm-front :
        t < d
        → (s' : Timers) × (arm k timer t s ≡ some s') × Holds s' ((timer, t) ∷ (x, d - t) ∷ ds)
    unfolding arm
    arm-front less =
        let rem = s.remaining_ticks in
        let rem' = update rem s.current (sub32 (rem s.current) t) in
        let ring : IsRing s.links x (x ∷ addrs ds) =
          (refl, held.ring.1, held.ring.2, held.ring.3) in
        let at : s.current ≡ x = held.ring.0 in
        (
          record s {
            remaining_ticks = rem';
            links = insert_before s.current timer s.links;
            current = timer;
          },
          ground arith,
          record {
            ring =
                subst (λ c. IsRing (insert_before c timer s.links) timer (timer ∷ x ∷ addrs ds))
                  (sym at) (insert_before-front s.links x (addrs ds) timer ring new nn);
            ticks = (
              ground arith,
              lt,
              (
                ground arith,
                ground arith,
                Ticks-frame rem rem' ds (λ y i. ground arith) held.ticks.2,
              ),
            );
          },
        )

    arm-behind :
        d ≤ t
        → length ds < k
        → (s' : Timers) × (arm k timer t s ≡ some s')
          × Holds s' ((x, d) ∷ passed (t - d) ds ++ (timer, left (t - d) ds) ∷ behind (t - d) ds)
    unfolding arm
    arm-behind le fuel =
        let ring : IsRing s.links x (x ∷ addrs ds) =
          (refl, held.ring.1, held.ring.2, held.ring.3) in
        let at : s.current ≡ x = held.ring.0 in
        let (rem', found, rest, same) =
          find_slot-behind k s.links x timer x d t ds s.remaining_ticks ring.3 held.ticks e le lt
            ring.1.0 new fuel in
        let whole : passed (t - d) ds ++ behind (t - d) ds ≡ ds = passed-append-behind (t - d) ds in
        (
          record s {
            remaining_ticks = rem';
            links = insert_before (first_or x (behind (t - d) ds)) timer s.links;
          },
          ground arith,
          record {
            ring =
                subst
                  (λ c.
                    IsRing (insert_before (first_or x (behind (t - d) ds)) timer s.links) c (
                      x
                      ∷ addrs (passed (t - d) ds ++ (timer, left (t - d) ds) ∷ behind (t - d) ds)))
                  (sym at)
                  (insert-IsRing s.links x (passed (t - d) ds) timer (left (t - d) ds)
                    (behind (t - d) ds) (rw whole ring) (rw whole new) nn);
            ticks = (
              ground (arith, same x),
              ground arith,
              Ticks-insert s.remaining_ticks rem' (passed (t - d) ds) timer (left (t - d) ds)
                  (behind (t - d) ds) (rw whole held.ticks.2) (rw whole (ground arith)) same rest
                  (omega (arith, left-le (t - d) ds)),
            );
          },
        )

-- A new timer takes its place in the list that the kernel holds, as `schedule` says.
pub arm-schedule :
    (k timer t : ℕ) (s : Timers) (ds : Deltas)
    → Holds s ds
    → s.remaining_ticks timer ≡ t
    → has timer (addrs ds) ≡ false
    → timer ≢ 0
    → t < 2 ^ 32
    → length ds < k
    → (s' : Timers) × (arm k timer t s ≡ some s') × Holds s' (schedule timer t ds)
arm-schedule k timer t s [] held e new nn lt fuel = arm-first k timer t s e nn lt held
arm-schedule k timer t s ((x, d) ∷ ds) held e new nn lt fuel = elim (Bool-cases (ltb t d)) [
  | inl less ↦ rw less (arm-front k timer t s e nn lt x d ds held new (ground arith))
  | inr more ↦
      let le : leb d t ≡ true = ground arith in
      rw (more, le) (arm-behind k timer t s e nn lt x d ds held new (ground arith) (omega arith))
]

-- The timeout functions and their arguments stay as they are.
pub arm-calls :
    (k n t x : ℕ) (s s' : Timers)
    → arm k n t s ≡ some s'
    → (s'.timer_timeout_function x ≡ s.timer_timeout_function x)
      × (s'.input_para x ≡ s.input_para x)
unfolding arm
arm-calls k n t x s s' run = ground arith
