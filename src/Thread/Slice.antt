-- ===== src/Thread/Slice.antt =====
-- `SysTick_Handler`: time slices.
use stm32_os.Common.{
  ℕ, zero, suc, ◌+◌, ◌-◌, ◌*◌, ◌≤◌, ◌<◌, ◌^◌, ◌≡◌, ◌≢◌, arith, ◌==◌, if◌then◌else◌, Bool-cases, inl,
  inr,
}
use stm32_os.Thread.{Threads, sys_tick_handler}

-- The state after `n` ticks, and how often a switch was asked for.
pub ticks : ℕ → Threads → Threads × ℕ
ticks zero s = (s, 0)
ticks (suc n) s =
    let (s', asked) = sys_tick_handler s in
    let (s'', count) = ticks n s' in (s'', if asked then count + 1 else count)

pub record Sliced (s : Threads) (cur left full : ℕ) : Type 0 where
  pub running : s.current_ptr ≡ cur
  pub slice : s.time_slice_new cur ≡ full
  pub remaining : s.time_slice_current cur ≡ left

tick-Sliced :
    (s : Threads) (cur left full : ℕ)
    → Sliced s cur left full
    → cur ≢ 0
    → 0 < left
    → left < 2 ^ 32
    → Sliced (sys_tick_handler s).0 cur (if left == 1 then full else left - 1) full
      × ((sys_tick_handler s).1 ≡ (left == 1))
unfolding sys_tick_handler
tick-Sliced s cur left full h nn pos lt = ground arith

-- A thread that keeps the processor, with `left` ticks of its slice of `full` ticks remaining (at
-- least 1 and at most `full`, which has 32 bits), is asked to give it up after `left` ticks and
-- then once for each `full` ticks: of `n` ticks and what remains then the sum is `left + count *
-- full`, and what remains is at least 1 and at most `full`.
pub ticks-Sliced :
    (n : ℕ) (s : Threads) (cur left full : ℕ)
    → Sliced s cur left full
    → cur ≢ 0
    → 0 < left
    → left ≤ full
    → full < 2 ^ 32
    → (left' : ℕ) × Sliced (ticks n s).0 cur left' full
      × (0 < left')
      × (left' ≤ full)
      × (n + left' ≡ left + (ticks n s).1 * full)
unfolding ticks
ticks-Sliced zero s cur left full h nn pos le lt = (left, h, pos, le, omega arith)
ticks-Sliced (suc n) s cur left full h nn pos le lt =
    let (one, asked) = tick-Sliced s cur left full h nn pos (omega arith) in
    let (left', later, pos', le', sum) =
      ticks-Sliced n (sys_tick_handler s).0 cur (if left == 1 then full else left - 1) full one nn
        (ground arith) (ground arith) lt in
    (
      left',
      later,
      pos',
      le',
      elim (Bool-cases (left == 1)) [
        | inl e ↦ rw (asked, e) (ground arith)
        | inr e ↦ rw (asked, e) (ground arith)
      ],
    )
