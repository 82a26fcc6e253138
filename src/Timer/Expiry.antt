-- ===== src/Timer/Expiry.antt =====
-- `os_timer_create`: when the timers fire.
use stm32_os.Common.{
  ℕ, ◌+◌, ◌-◌, ◌≡◌, ◌≢◌, true, false, [], ◌∷◌, ◌++◌, arith, leb, ltb, if◌then◌else◌, has,
}
use stm32_os.Timer.Deltas.{Deltas, addrs, expiry, passed, behind, left, schedule}

expiry-insert_self :
    (n u : ℕ) (ds : Deltas)
    → has n (addrs ds) ≡ false
    → expiry n (passed u ds ++ (n, left u ds) ∷ behind u ds) ≡ u
expiry-insert_self n u [] out = ground arith
expiry-insert_self n u ((x, d) ∷ ds) out = ground (arith, expiry-insert_self n (u - d) ds)

-- A timer created with `t` ticks fires after exactly `t` interrupts.
pub expiry-schedule_self :
    (n t : ℕ) (ds : Deltas) → has n (addrs ds) ≡ false → expiry n (schedule n t ds) ≡ t
expiry-schedule_self n t [] out = ground arith
expiry-schedule_self n t ((x, d) ∷ ds) out = ground (arith, expiry-insert_self n (t - d) ds)

expiry-insert :
    (x n u : ℕ) (ds : Deltas)
    → x ≢ n
    → has x (addrs ds) ≡ true
    → expiry x (passed u ds ++ (n, left u ds) ∷ behind u ds)
      ≡ expiry x ds + (if leb (expiry x ds) u then 0 else left u ds)
expiry-insert x n u [] ne i = absurd (ground arith)
expiry-insert x n u ((y, d) ∷ ds) ne i = ground (arith, expiry-insert x n (u - d) ds)

-- By how many interrupts `os_timer_create` postpones a timer that was in the list.
abbrev pub postponement : ℕ → ℕ → Deltas → ℕ
postponement x t [] = 0
postponement x t ((y, d) ∷ ds) =
    if ltb t d then 0 else if leb (expiry x ((y, d) ∷ ds)) t then 0 else left t ((y, d) ∷ ds)

-- A timer in the list fires when it would have fired, if the new timer goes to the front of the
-- list or is due no earlier. Else it fires later, by the ticks that the new timer has left.
pub expiry-schedule :
    (x n t : ℕ) (ds : Deltas)
    → x ≢ n
    → has x (addrs ds) ≡ true
    → expiry x (schedule n t ds) ≡ expiry x ds + postponement x t ds
expiry-schedule x n t [] ne i = absurd (ground arith)
expiry-schedule x n t ((y, d) ∷ ds) ne i = ground (arith, expiry-insert x n (t - d) ds)
