-- ===== src/Timer/Tests.antt =====
-- Two timers, at 100 with 5 ticks and at 200 with 3 more, and what the operations do with them.
use stm32_os.Common.{
  ℕ, ◌+◌, ◌≡◌, ◌≢◌, true, false, some, List, [], ◌∷◌, ◌++◌, arith, ◌==◌, if◌then◌else◌, has, refl,
  last,
}
use stm32_os.Port.Tests.{heap}
use stm32_os.Timer.{Timers, os_timer_create, os_timer_delete, tim3_irq_handler}
use stm32_os.Timer.Deltas.{Deltas, Holds, addrs, expiry}
use stm32_os.Timer.Expiry.{postponement}
use stm32_os.Timer.Cancel.{ticks_of}
use stm32_os.Timer.Tick.{calls_of}
use stm32_os.Timer.Service.{os_timer_create-expiry, os_timer_delete-expiry, tim3_irq_handler-expiry}

abbrev pub two_timers : Timers
two_timers = record {
  type_id = λ x. 0;
  name = λ x. 0;
  remaining_ticks = λ x. if x == 100 then 5 else 3;
  timer_timeout_function = λ x. x + 1;
  input_para = λ x. x + 2;
  links = record {
    next = λ x. if x == 100 then 200 else 100;
    previous = λ x. if x == 100 then 200 else 100;
  };
  kmem_own = λ x. x + 1000;
  current = 100;
  cr1 = 0;
  sr = 1;
}

abbrev pub two : Deltas
two = (100, 5) ∷ (200, 3) ∷ []

pub two_timers-Holds : Holds two_timers two
two_timers-Holds = record {
  ring = (refl, (refl, (refl, tt)), refl, (refl, refl, (refl, refl)));
  ticks = (refl, omega arith, (refl, omega arith, tt));
}

-- A third timer, with 6 ticks, fires after 6 interrupts.
os_timer_create-expiry_example :
    (s' : Timers) × (ds' : Deltas) × (os_timer_create heap 7 8 9 6 (two_timers, 1000)
      ≡ some (1036, s', 1064))
    × Holds s' ds'
    × (s'.timer_timeout_function 1036 ≡ 8)
    × (s'.input_para 1036 ≡ 9)
    × (expiry 1036 ds' ≡ 6)
    × ((x : ℕ) → has x (addrs two) ≡ true → expiry x ds' ≡ expiry x two + postponement x 6 two)
os_timer_create-expiry_example =
    os_timer_create-expiry heap 7 8 9 6 two_timers 1000 1064 1000 two two_timers-Holds (omega arith)
      (omega arith) refl (omega arith) (omega arith) refl (omega arith)

-- The first timer is deleted.
os_timer_delete-expiry_example :
    (s' : Timers) × (ds' : Deltas) × (os_timer_delete heap 100 (two_timers, 1000) ≡ (s', 1000))
    × Holds s' ds'
    × (has 100 (addrs ds') ≡ false)
    × ((x : ℕ)
        → x ≢ 100
        → has x (addrs two) ≡ true
        → (has x (addrs ds') ≡ true)
          × (expiry x ds'
              ≡ expiry x two + (if 100 == last 100 (addrs two) then ticks_of 100 two else 0)))
os_timer_delete-expiry_example =
    os_timer_delete-expiry heap 100 two_timers 1000 two two_timers-Holds refl (omega arith)

-- One interrupt: no timer is due.
tim3_irq_handler-expiry_example :
    (s' : Timers) × (h' : ℕ) × (fired : List ℕ) × (ds' : Deltas) × (tim3_irq_handler heap
        (two_timers, 1000)
      ≡ some (calls_of two_timers fired, s', h'))
    × Holds s' ds'
    × (fired ++ addrs ds' ≡ addrs two)
    × ((y : ℕ)
        → has y (addrs two) ≡ true
        → (has y fired ≡ (expiry y two == 1))
          × (has y fired ≡ false → expiry y ds' + 1 ≡ expiry y two))
tim3_irq_handler-expiry_example =
    tim3_irq_handler-expiry heap two_timers 1000 100 5 ((200, 3) ∷ []) two_timers-Holds
      (omega arith) (omega arith)
