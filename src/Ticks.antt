-- ===== src/Ticks.antt =====
-- Driver/F4/driver_SYS_TICK.c, Driver/F1/driver_SYS_TICK.c and Driver/F4/driver_TIM_BASE.c: the
-- hardware timers. Their registers read as they were written.
pub mod Period
use stm32_os.Common.{
  ℕ, ◌+◌, ◌-◌, ◌*◌, ◌/◌, ◌%◌, ◌^◌, Bool, true, false, Option, none, some, ◌==◌, if◌then◌else◌,
  update,
}
use stm32_os.Dma.Stream.{ExeState}

-- CPU_FREQ of the F4.
abbrev pub cpu_freq : ℕ
cpu_freq = 168000000

-- CTRL and LOAD of the system's timer.
pub record SysTick : Type 0 where
  pub ctrl : ℕ
  pub load : ℕ

pub sys_tick_enable : (ms_per_ticks : ℕ) → SysTick → SysTick
sys_tick_enable ms_per_ticks s = record {
  ctrl = 0x07;
  load = cpu_freq / 1000 * ms_per_ticks % 2 ^ 32;
}

pub sys_tick_disable : SysTick → SysTick
sys_tick_disable s = record s { ctrl = 0 }

-- The flag and the milliseconds.
pub sys_tick_info_get : SysTick → ℕ × ℕ
sys_tick_info_get s = (s.ctrl % 2, s.load * 1000 % 2 ^ 32 / cpu_freq)

pub data TimerWork : Type 0 where
  timer_no_work timer_timing timer_timing_circle : TimerWork

-- The registers of the timers, as functions of the timer's address, and timer_type.
pub record TimBase : Type 0 where
  pub cr1 : ℕ → ℕ
  pub psc : ℕ → ℕ
  pub cnt : ℕ → ℕ
  pub arr : ℕ → ℕ
  pub dier : ℕ → ℕ
  pub timer_type : ℕ → ℕ

pub start_timing : (timer_ptr ms_per_ticks : ℕ) → (is_circle : Bool) → TimBase → ExeState × TimBase
start_timing timer_ptr ms_per_ticks is_circle s =
    if s.cr1 timer_ptr % 2 == 1 then (ExeState.exe_device_busying, s) else (
      ExeState.exe_success,
      record s {
        psc = update s.psc timer_ptr (cpu_freq / 1000 / 10 - 1);
        cnt = update s.cnt timer_ptr (ms_per_ticks * 10 % 2 ^ 32);
        arr = update s.arr timer_ptr (ms_per_ticks * 10 % 2 ^ 32);
        dier = update s.dier timer_ptr 1;
        cr1 = update s.cr1 timer_ptr (if is_circle then 0x85 else 0x0D);
      },
    )

pub timer_disable : (timer_ptr : ℕ) → TimBase → ExeState × TimBase
timer_disable timer_ptr s = (ExeState.exe_success, record s { cr1 = update s.cr1 timer_ptr 0 })

-- What a caller gets who passes the three pointers; `none` is written by no branch.
pub record State : Type 0 where
  pub work : Option TimerWork
  pub type_of : Option ℕ
  pub ms_per_ticks : Option ℕ

-- The case for a circular timer runs on into the default.
pub timer_state_get : (timer_ptr : ℕ) → TimBase → ExeState × State
timer_state_get timer_ptr s =
    let cr1 = s.cr1 timer_ptr in
    let kind = some (s.timer_type timer_ptr) in
    let ms = some (s.arr timer_ptr / 10) in
    if timer_ptr == 0
    then (ExeState.exe_para_error, record { work = none; type_of = none; ms_per_ticks = none })
    else if cr1 % 2 == 1
    then if cr1 == 0x0D
      then (
        ExeState.exe_success,
        record { work = some TimerWork.timer_timing; type_of = kind; ms_per_ticks = ms },
      )
      else (
        ExeState.exe_unknow_error,
        record {
          work = if cr1 == 0x85 then some TimerWork.timer_timing_circle else none;
          type_of = none;
          ms_per_ticks = none;
        },
      )
    else (
      ExeState.exe_success,
      record { work = some TimerWork.timer_no_work; type_of = kind; ms_per_ticks = ms },
    )
