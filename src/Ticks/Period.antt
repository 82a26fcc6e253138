-- ===== src/Ticks/Period.antt =====
-- The period that was set is read back, where it is.
use stm32_os.Common.{
  ℕ, ◌*◌, ◌/◌, ◌%◌, ◌^◌, ◌<◌, ◌≡◌, ◌≢◌, Bool, true, false, none, some, ◌==◌, if◌then◌else◌, leb,
  update, arith, refl, ==-true, ==-false,
}
use stm32_os.Dma.Stream.{ExeState}
use stm32_os.Ticks.{
  SysTick, sys_tick_enable, sys_tick_info_get, TimerWork, TimBase, start_timing, timer_state_get,
}

-- For a period that LOAD, of 24 bits, can hold, `sys_tick_info_get` after `sys_tick_enable` says
-- that the timer is on, and gives the period back if it is at most 25 milliseconds, and never else.
pub sys_tick_info_get-sys_tick_enable :
    (ms : ℕ) (s : SysTick)
    → ms < 100
    → ((sys_tick_info_get (sys_tick_enable ms s)).0 ≡ 1)
      × (((sys_tick_info_get (sys_tick_enable ms s)).1 == ms) ≡ leb ms 25)
unfolding sys_tick_info_get sys_tick_enable
sys_tick_info_get-sys_tick_enable ms s small = (refl, ground arith)

-- A timer that was started, as its state is read.
pub record Timing (timer ms : ℕ) (is_circle : Bool) (s : TimBase) : Type 0 where
  pub after : TimBase
  pub started : start_timing timer ms is_circle s ≡ (ExeState.exe_success, after)
  pub state : timer_state_get timer after ≡ (
      if is_circle
      then (
        ExeState.exe_unknow_error,
        record { work = some TimerWork.timer_timing_circle; type_of = none; ms_per_ticks = none },
      )
      else (
        ExeState.exe_success,
        record {
          work = some TimerWork.timer_timing;
          type_of = some (s.timer_type timer);
          ms_per_ticks = some ms;
        },
      ))

-- A timer that is not running, whose address is not NULL, is started with a period that its 16-bit
-- registers hold. `timer_state_get` then gives the kind and the period back for a timer that runs
-- once, and an error for one that runs in a circle.
pub timer_state_get-Timing :
    (timer ms : ℕ) (is_circle : Bool) (s : TimBase)
    → timer ≢ 0
    → s.cr1 timer % 2 ≡ 0
    → ms * 10 < 2 ^ 16
    → Timing timer ms is_circle s
unfolding start_timing timer_state_get
timer_state_get-Timing timer ms true s nt idle small =
    let off : (s.cr1 timer % 2 == 1) ≡ false = ground arith in
    record {
      after = record s {
        psc = update s.psc timer 16799;
        cnt = update s.cnt timer (ms * 10 % 2 ^ 32);
        arr = update s.arr timer (ms * 10 % 2 ^ 32);
        dier = update s.dier timer 1;
        cr1 = update s.cr1 timer 0x85;
      };
      started = rw off refl;
      state = rw (==-true timer timer refl, ==-false timer 0 nt) refl;
    }
timer_state_get-Timing timer ms false s nt idle small =
    let off : (s.cr1 timer % 2 == 1) ≡ false = ground arith in
    let period : ms * 10 % 2 ^ 32 / 10 ≡ ms = omega arith in
    record {
      after = record s {
        psc = update s.psc timer 16799;
        cnt = update s.cnt timer (ms * 10 % 2 ^ 32);
        arr = update s.arr timer (ms * 10 % 2 ^ 32);
        dier = update s.dier timer 1;
        cr1 = update s.cr1 timer 0x0D;
      };
      started = rw off refl;
      state = rw (==-true timer timer refl, ==-false timer 0 nt, period) refl;
    }
