-- ===== src/Timer/Deltas.antt =====
-- What the timer list stands for: each timer with the ticks that remain after the one before it.
use stm32_os.Common.{
  refl, ap, ◌≤◌, false, Bool-cases, inl, inr, ne_of_has, ℕ, ◌+◌, ◌-◌, ◌<◌, ◌^◌, ◌≡◌, true, List, [],
  ◌∷◌, ◌++◌, arith, ◌==◌, leb, ltb, if◌then◌else◌, has,
}
use stm32_os.Ring.Chain.{IsRing}
use stm32_os.Timer.{Timers}

abbrev pub Deltas : Type 0
Deltas = List (ℕ × ℕ)

abbrev pub addrs : Deltas → List ℕ
addrs [] = []
addrs ((x, d) ∷ ds) = x ∷ addrs ds

abbrev pub Ticks : (ℕ → ℕ) → Deltas → Type 0
Ticks rem [] = Unit
Ticks rem ((x, d) ∷ ds) = (rem x ≡ d) × (d < 2 ^ 32) × Ticks rem ds

-- The kernel's timer list holds these timers with these ticks.
pub record Holds (s : Timers) (ds : Deltas) : Type 0 where
  pub ring : IsRing s.links s.current (addrs ds)
  pub ticks : Ticks s.remaining_ticks ds

-- The interrupts after which a timer fires: the ticks up to it, summed.
abbrev pub expiry : ℕ → Deltas → ℕ
expiry n [] = 0
expiry n ((x, d) ∷ ds) = if n == x then d else d + expiry n ds

-- A timer with `t` ticks passes the timers that fire no later than it ...
abbrev pub passed : ℕ → Deltas → Deltas
passed t [] = []
passed t ((x, d) ∷ ds) = if leb d t then (x, d) ∷ passed (t - d) ds else []

-- ... stops before these ...
abbrev pub behind : ℕ → Deltas → Deltas
behind t [] = []
behind t ((x, d) ∷ ds) = if leb d t then behind (t - d) ds else (x, d) ∷ ds

-- ... and has these ticks left.
abbrev pub left : ℕ → Deltas → ℕ
left t [] = t
left t ((x, d) ∷ ds) = if leb d t then left (t - d) ds else t

-- Where `os_timer_create` puts a new timer.
abbrev pub schedule : ℕ → ℕ → Deltas → Deltas
schedule n t [] = (n, t) ∷ []
schedule n t ((x, d) ∷ ds) =
    if ltb t d
    then (n, t) ∷ (x, d - t) ∷ ds
    else passed t ((x, d) ∷ ds) ++ (n, left t ((x, d) ∷ ds)) ∷ behind t ((x, d) ∷ ds)

pub Ticks-frame :
    (f g : ℕ → ℕ) (ds : Deltas)
    → ((y : ℕ) → has y (addrs ds) ≡ true → g y ≡ f y)
    → Ticks f ds
    → Ticks g ds
Ticks-frame f g [] e t = tt
Ticks-frame f g ((x, d) ∷ ds) e t =
    (ground (arith, e x), t.1, Ticks-frame f g ds (λ y i. e y (ground arith)) t.2)

pub passed-append-behind : (t : ℕ) (ds : Deltas) → passed t ds ++ behind t ds ≡ ds
passed-append-behind t [] = refl
passed-append-behind t ((x, d) ∷ ds) = elim (Bool-cases (leb d t)) [
  | inl e ↦ rw e (ap (λ r. (x, d) ∷ r) (passed-append-behind (t - d) ds))
  | inr e ↦ rw e
]

pub addrs-append : (xs ys : Deltas) → addrs (xs ++ ys) ≡ addrs xs ++ addrs ys
addrs-append [] ys = refl
addrs-append ((x, d) ∷ xs) ys = ap (λ r. x ∷ r) (addrs-append xs ys)

pub left-le : (t : ℕ) (ds : Deltas) → left t ds ≤ t
left-le t [] = omega arith
left-le t ((x, d) ∷ ds) = ground (arith, left-le (t - d) ds)

pub Ticks-insert :
    (f g : ℕ → ℕ) (ps : Deltas) (n c : ℕ) (bs : Deltas)
    → Ticks f (ps ++ bs)
    → has n (addrs (ps ++ bs)) ≡ false
    → ((y : ℕ) → ¬ (y ≡ n) → g y ≡ f y)
    → g n ≡ c
    → c < 2 ^ 32
    → Ticks g (ps ++ (n, c) ∷ bs)
Ticks-insert f g [] n c bs t out same e lt =
    (e, lt, Ticks-frame f g bs (λ y i. same y (ne_of_has y n (addrs bs) i out)) t)
Ticks-insert f g ((x, d) ∷ ps) n c bs t out same e lt =
    (ground (arith, same x), t.1, Ticks-insert f g ps n c bs t.2 (ground arith) same e lt)
