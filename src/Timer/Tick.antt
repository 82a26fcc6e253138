-- ===== src/Timer/Tick.antt =====
-- `TIM3_IRQHandler`: a tick, and the timers that it fires.
use stm32_os.Common.{
  ℕ, zero, suc, ◌+◌, ◌-◌, ◌<◌, ◌≡◌, ◌≢◌, true, false, some, List, [], ◌∷◌, ◌++◌, arith, ◌==◌,
  ==-false, ==-true, if◌then◌else◌, nonzero, length, has, update, Bool-cases, inl, inr, ◌&&◌, ◌∙◌,
  refl, ap, ap₂, subst,
}
use stm32_os.Port.{Kmem, sub32, sram_size}
use stm32_os.Timer.{Timers, disarm, os_timer_delete, expire, enable, tim3_irq_handler}
use stm32_os.Timer.Deltas.{Deltas, addrs, Ticks, Holds, expiry, Ticks-frame}
use stm32_os.Timer.Cancel.{cancel, disarm-cancel}

-- The timers at the front that have no ticks left, and the others.
abbrev pub due : Deltas → List ℕ
due [] = []
due ((x, d) ∷ ds) = if d == 0 then x ∷ due ds else []

abbrev pub undue : Deltas → Deltas
undue [] = []
undue ((x, d) ∷ ds) = if d == 0 then undue ds else (x, d) ∷ ds

-- One tick: only the head's ticks are counted down.
abbrev pub count_down : Deltas → Deltas
count_down [] = []
count_down ((x, d) ∷ ds) = (x, d - 1) ∷ ds

-- The calls of the timeout functions of these timers.
abbrev pub calls_of : Timers → List ℕ → List (ℕ × ℕ)
calls_of s [] = []
calls_of s (x ∷ xs) = (s.timer_timeout_function x, s.input_para x) ∷ calls_of s xs

cancel-due : (rem : ℕ → ℕ) (x : ℕ) (ds : Deltas) → Ticks rem ds → cancel x ((x, 0) ∷ ds) ≡ ds
cancel-due rem x [] t = ground arith
cancel-due rem x ((y, e) ∷ ds) t = ground arith

calls_of-disarm : (n : ℕ) (s : Timers) (xs : List ℕ) → calls_of (disarm n s) xs ≡ calls_of s xs
unfolding disarm
calls_of-disarm n s [] = refl
calls_of-disarm n s (x ∷ xs) =
    ap (λ r. (s.timer_timeout_function x, s.input_para x) ∷ r) (calls_of-disarm n s xs)

module _ (M : Kmem) where
  open M use {Store, kmem_free}

  pub os_timer_delete-disarm :
      (n : ℕ) (s : Timers) (h : Store)
      → n ≢ 0
      → os_timer_delete M n (s, h) ≡ (disarm n s, kmem_free (s.kmem_own n) h)
  unfolding os_timer_delete
  os_timer_delete-disarm n s h nn = rw (==-false n 0 nn)

  pub os_timer_delete-null :
      (n : ℕ) (s : Timers) (h : Store) → n ≡ 0 → os_timer_delete M n (s, h) ≡ (s, h)
  unfolding os_timer_delete
  os_timer_delete-null n s h e = rw (==-true n 0 e)

  expire-stop :
      (k : ℕ) (s : Timers) (h : Store)
      → (nonzero s.current && (s.remaining_ticks s.current == 0)) ≡ false
      → expire M (suc k) (s, h) ≡ some ([], s, h)
  unfolding expire
  expire-stop k s h stop = rw stop

  expire-fire :
      (k : ℕ) (s : Timers) (h : Store) {calls : List (ℕ × ℕ)} {s' : Timers} {h' : Store}
      → s.current ≢ 0
      → s.remaining_ticks s.current ≡ 0
      → expire M k (disarm s.current s, kmem_free (s.kmem_own s.current) h) ≡ some (calls, s', h')
      → expire M (suc k) (s, h)
        ≡ some ((s.timer_timeout_function s.current, s.input_para s.current) ∷ calls, s', h')
  unfolding expire
  expire-fire k s h nn z run =
      rw (==-false s.current 0 nn, z, os_timer_delete-disarm s.current s h nn, run)

  -- The loop fires the timers without ticks, in order, and keeps the others.
  expire-due :
      (k : ℕ) (s : Timers) (h : Store) (ds : Deltas)
      → Holds s ds
      → length ds < k
      → (s' : Timers) × (h' : Store) × (expire M k (s, h) ≡ some (calls_of s (due ds), s', h'))
        × Holds s' (undue ds)
  expire-due zero s h ds held fuel = absurd (omega arith)
  expire-due (suc k) s h [] held fuel = (s, h, expire-stop k s h (rw held.ring), held)
  expire-due (suc k) s h ((x, suc d) ∷ ds) held fuel =
      let positive : (suc d == 0) ≡ false = ground arith in
      rw positive (s, h, expire-stop k s h (ground arith), held)
  expire-due (suc k) s h ((x, zero) ∷ ds) held fuel =
      let at : s.current ≡ x = held.ring.0 in
      let now : Timers = disarm s.current s in
      let held' : Holds now ds =
        subst (λ r. Holds now r)
          (ap (λ y. cancel y ((x, 0) ∷ ds)) at ∙ cancel-due s.remaining_ticks x ds held.ticks.2)
          (disarm-cancel s.current s ((x, 0) ∷ ds) held (ground arith)) in
      let (s', h', run, rest) =
        expire-due k now (kmem_free (s.kmem_own s.current) h) ds held' (omega arith) in
      (
        s',
        h',
        expire-fire k s h (ground arith) (ground arith) run
            ∙ ap₂ (λ y r. some ((s.timer_timeout_function y, s.input_para y) ∷ r, s', h')) at
                (calls_of-disarm s.current s (due ds)),
        rest,
      )

  tick : Timers → Timers
  tick s = record s {
    sr = 0;
    remaining_ticks = update s.remaining_ticks s.current (sub32 (s.remaining_ticks s.current) 1);
  }

  tick-Holds :
      (s : Timers) (x d : ℕ) (ds : Deltas)
      → Holds s ((x, d) ∷ ds)
      → 0 < d
      → Holds (tick s) ((x, d - 1) ∷ ds)
  unfolding tick
  tick-Holds s x d ds held pos = record {
    ring = held.ring;
    ticks = (
      ground arith,
      ground arith,
      Ticks-frame s.remaining_ticks
          (update s.remaining_ticks s.current (sub32 (s.remaining_ticks s.current) 1)) ds
          (λ y i. ground arith) held.ticks.2,
    );
  }

  irq-tick :
      (s : Timers) (h : Store) {calls : List (ℕ × ℕ)} {s' : Timers} {h' : Store}
      → s.current ≢ 0
      → expire M sram_size (tick s, h) ≡ some (calls, s', h')
      → tim3_irq_handler M (s, h) ≡ some (calls, enable s', h')
  unfolding tim3_irq_handler tick
  irq-tick s h nn run = rw (==-false s.current 0 nn, run)

  calls_of-tick : (s : Timers) (xs : List ℕ) → calls_of (tick s) xs ≡ calls_of s xs
  unfolding tick
  calls_of-tick s [] = refl
  calls_of-tick s (x ∷ xs) =
      ap (λ r. (s.timer_timeout_function x, s.input_para x) ∷ r) (calls_of-tick s xs)

  enable-Holds : (s : Timers) (ds : Deltas) → Holds s ds → Holds (enable s) ds
  unfolding enable
  enable-Holds s ds held = elim (Bool-cases (nonzero s.current)) [
    | inl e ↦ rw e (record { ring = held.ring; ticks = held.ticks })
    | inr e ↦ rw e held
  ]

  -- An interrupt on a list whose first timer has ticks left: it returns, it counts down the first
  -- timer, calls the timeout functions of the timers without ticks, in order, and takes these out.
  pub tim3_irq_handler-due :
      (s : Timers) (h : Store) (x d : ℕ) (ds : Deltas)
      → Holds s ((x, d) ∷ ds)
      → 0 < d
      → suc (length ds) < sram_size
      → (s' : Timers) × (h' : Store) × (tim3_irq_handler M (s, h)
          ≡ some (calls_of s (due (count_down ((x, d) ∷ ds))), s', h'))
        × Holds s' (undue (count_down ((x, d) ∷ ds)))
  tim3_irq_handler-due s h x d ds held pos fuel =
      let (s', h', run, rest) =
        expire-due sram_size (tick s) h ((x, d - 1) ∷ ds) (tick-Holds s x d ds held pos) fuel in
      (
        enable s',
        h',
        irq-tick s h (ground arith) run
            ∙ ap (λ r. some (r, enable s', h')) (calls_of-tick s (due ((x, d - 1) ∷ ds))),
        enable-Holds s' (undue ((x, d - 1) ∷ ds)) rest,
      )

-- The timers that fire are the first ones of the list, and what is left are the others.
pub due-undue : (ds : Deltas) → due ds ++ addrs (undue ds) ≡ addrs ds
due-undue [] = refl
due-undue ((x, d) ∷ ds) = elim (Bool-cases (d == 0)) [
  | inl e ↦ rw e (ap (λ r. x ∷ r) (due-undue ds))
  | inr e ↦ rw e refl
]

has-due : (y : ℕ) (ds : Deltas) → has y (due ds) ≡ true → expiry y ds ≡ 0
has-due y [] i = refl
has-due y ((x, d) ∷ ds) i = ground (arith, has-due y ds)

due-has : (y : ℕ) (ds : Deltas) → has y (addrs ds) ≡ true → expiry y ds ≡ 0 → has y (due ds) ≡ true
due-has y [] i e = i
due-has y ((x, d) ∷ ds) i e = ground (arith, due-has y ds)

expiry-undue :
    (y : ℕ) (ds : Deltas)
    → has y (addrs ds) ≡ true
    → has y (due ds) ≡ false
    → expiry y (undue ds) ≡ expiry y ds
expiry-undue y [] i out = refl
expiry-undue y ((x, d) ∷ ds) i out = ground (arith, expiry-undue y ds)

-- A timer fires at an interrupt exactly when that was its last one; each other timer is one
-- interrupt nearer to its own.
pub expiry-count_down :
    (y x d : ℕ) (ds : Deltas)
    → 0 < d
    → has y (x ∷ addrs ds) ≡ true
    → (has y (due (count_down ((x, d) ∷ ds))) ≡ (expiry y ((x, d) ∷ ds) == 1))
      × (has y (due (count_down ((x, d) ∷ ds))) ≡ false
          → expiry y (undue (count_down ((x, d) ∷ ds))) + 1 ≡ expiry y ((x, d) ∷ ds))
expiry-count_down y x d ds pos i = (
  ground (arith, has-due y ((x, d - 1) ∷ ds), due-has y ((x, d - 1) ∷ ds)),
  λ out. ground (arith, expiry-undue y ((x, d - 1) ∷ ds)),
)
