-- ===== src/Timer/Service.antt =====
-- The timer list as a service: what its three operations promise, by when the timers fire.
use stm32_os.Common.{
  ℕ, suc, ◌+◌, ◌<◌, ◌^◌, ◌≡◌, ◌≢◌, true, false, some, ◌∷◌, ◌++◌, arith, ◌==◌, ==-false,
  if◌then◌else◌, has, last, length, update, ap, ◌∙◌, List,
}
use stm32_os.Port.{Kmem, sram_size}
use stm32_os.Ring.Chain.{IsRing-Distinct, IsRing-ne_null}
use stm32_os.Ring.Unlink.{has-erase_self, has-erase_ne}
use stm32_os.Timer.{
  Timers, set_fields, arm, disarm, os_timer_create, os_timer_delete, tim3_irq_handler,
}
use stm32_os.Timer.Deltas.{Deltas, addrs, Holds, expiry, schedule, Ticks-frame}
use stm32_os.Timer.Create.{arm-schedule, arm-calls}
use stm32_os.Timer.Expiry.{postponement, expiry-schedule_self, expiry-schedule}
use stm32_os.Timer.Cancel.{addrs-cancel, cancel, ticks_of, total, disarm-cancel, expiry-cancel}
use stm32_os.Timer.Tick.{
  due, undue, count_down, calls_of, os_timer_delete-disarm, tim3_irq_handler-due, due-undue,
  expiry-count_down,
}

set_fields-Holds :
    (n name func para t k : ℕ) (s : Timers) (ds : Deltas)
    → has n (addrs ds) ≡ false
    → Holds s ds
    → Holds (set_fields n name func para t k s) ds
unfolding set_fields
set_fields-Holds n name func para t k s ds new held = record {
  ring = held.ring;
  ticks =
      Ticks-frame s.remaining_ticks (update s.remaining_ticks n t) ds (λ y i. ground arith)
        held.ticks;
}

set_fields_ticks :
    (n name func para t k : ℕ) (s : Timers)
    → (set_fields n name func para t k s).remaining_ticks n ≡ t
unfolding set_fields
set_fields_ticks n name func para t k s = ground arith

set_fields_calls :
    (n name func para t k : ℕ) (s : Timers)
    → ((set_fields n name func para t k s).timer_timeout_function n ≡ func)
      × ((set_fields n name func para t k s).input_para n ≡ para)
unfolding set_fields
set_fields_calls n name func para t k s = (ground arith, ground arith)

module _ (M : Kmem) where
  open M use {Store, kmem_malloc, start, kmem_free}

  create-arm :
      (name func para t : ℕ) (s s' : Timers) (h h' : Store) (k : ℕ)
      → t ≢ 0
      → kmem_malloc 32 h ≡ (k, h')
      → k ≢ 0
      → arm sram_size (start k h') t (set_fields (start k h') name func para t k s) ≡ some s'
      → os_timer_create M name func para t (s, h) ≡ some (start k h', s', h')
  unfolding os_timer_create
  create-arm name func para t s s' h h' k nt e nk run =
      rw (==-false t 0 nt, ap (λ p. p.0) e, ==-false k 0 nk, ap (λ p. p.1) e, run)
        (ap (λ p. some (start p.0 p.1, s', p.1)) e)

  -- `os_timer_create`, given memory that no timer uses and a number of ticks that is not 0 and has
  -- 32 bits, on a valid list shorter than the RAM is large, returns a timer and keeps the list
  -- valid. The new timer fires after exactly `t` interrupts, by a call of its function with its
  -- argument. Each other one fires when it would have fired, or later by its `postponement`: the
  -- ticks that the new timer has left where it is put, if that is before the other one and not at
  -- the front of the list.
  pub os_timer_create-expiry :
      (name func para t : ℕ) (s : Timers) (h h' : Store) (k : ℕ) (ds : Deltas)
      → Holds s ds
      → t ≢ 0
      → t < 2 ^ 32
      → kmem_malloc 32 h ≡ (k, h')
      → k ≢ 0
      → start k h' ≢ 0
      → has (start k h') (addrs ds) ≡ false
      → length ds < sram_size
      → (s' : Timers) × (ds' : Deltas) × (os_timer_create M name func para t (s, h)
          ≡ some (start k h', s', h'))
        × Holds s' ds'
        × (s'.timer_timeout_function (start k h') ≡ func)
        × (s'.input_para (start k h') ≡ para)
        × (expiry (start k h') ds' ≡ t)
        × ((x : ℕ) → has x (addrs ds) ≡ true → expiry x ds' ≡ expiry x ds + postponement x t ds)
  os_timer_create-expiry name func para t s h h' k ds held nt lt e nk nn new fuel =
      let n = start k h' in
      let (s', run, held') =
        arm-schedule sram_size n t (set_fields n name func para t k s) ds
          (set_fields-Holds n name func para t k s ds new held)
          (set_fields_ticks n name func para t k s) new nn lt fuel in
      let armed = arm-calls sram_size n t n (set_fields n name func para t k s) s' run in
      let calls = set_fields_calls n name func para t k s in
      (
        s',
        schedule n t ds,
        create-arm name func para t s s' h h' k nt e nk run,
        held',
        armed.0 ∙ calls.0,
        armed.1 ∙ calls.1,
        expiry-schedule_self n t ds new,
        λ x i. expiry-schedule x n t ds (λ same. ground arith) i,
      )

  -- `os_timer_delete` of a timer in the list keeps the list, without that timer. The others fire
  -- when they would have fired, unless the deleted timer is the last: then each other one fires
  -- later, by the ticks of the deleted one. The memory of the timer is freed. The condition is that
  -- all ticks together are below 2 ^ 32.
  pub os_timer_delete-expiry :
      (n : ℕ) (s : Timers) (h : Store) (ds : Deltas)
      → Holds s ds
      → has n (addrs ds) ≡ true
      → total ds < 2 ^ 32
      → (s' : Timers) × (ds' : Deltas) × (os_timer_delete M n (s, h)
          ≡ (s', kmem_free (s.kmem_own n) h))
        × Holds s' ds'
        × (has n (addrs ds') ≡ false)
        × ((x : ℕ)
            → x ≢ n
            → has x (addrs ds) ≡ true
            → (has x (addrs ds') ≡ true)
              × (expiry x ds'
                  ≡ expiry x ds + (if n == last n (addrs ds) then ticks_of n ds else 0)))
  os_timer_delete-expiry n s h ds held i lt =
      let dis = IsRing-Distinct s.links s.current (addrs ds) held.ring in
      let nz = IsRing-ne_null s.links s.current n (addrs ds) held.ring i in
      (
        disarm n s,
        cancel n ds,
        os_timer_delete-disarm M n s h nz,
        disarm-cancel n s ds held i,
        rw addrs-cancel (has-erase_self n (addrs ds) dis),
        λ x ne j. (
          rw addrs-cancel (has-erase_ne x n (addrs ds) ne j),
          expiry-cancel x n ds ne j i dis lt,
        ),
      )

  -- `TIM3_IRQHandler`, on a valid list that is shorter than the RAM is large and whose first timer
  -- has ticks left, returns and keeps the list valid. It calls the timeout functions of exactly the
  -- timers that are due at this interrupt: these are the first of the list, each is called once, in
  -- the order of the list, and what is left of the list are the others in their order, so that no
  -- timer that was called is left in it. Each other timer is one interrupt nearer.
  pub tim3_irq_handler-expiry :
      (s : Timers) (h : Store) (x d : ℕ) (ds : Deltas)
      → Holds s ((x, d) ∷ ds)
      → 0 < d
      → suc (length ds) < sram_size
      → (s' : Timers) × (h' : Store) × (fired : List ℕ) × (ds' : Deltas) × (tim3_irq_handler M
            (s, h)
          ≡ some (calls_of s fired, s', h'))
        × Holds s' ds'
        × (fired ++ addrs ds' ≡ x ∷ addrs ds)
        × ((y : ℕ)
            → has y (x ∷ addrs ds) ≡ true
            → (has y fired ≡ (expiry y ((x, d) ∷ ds) == 1))
              × (has y fired ≡ false → expiry y ds' + 1 ≡ expiry y ((x, d) ∷ ds)))
  tim3_irq_handler-expiry s h x d ds held pos fuel =
      let (s', h', run, held') = tim3_irq_handler-due M s h x d ds held pos fuel in
      (
        s',
        h',
        due (count_down ((x, d) ∷ ds)),
        undue (count_down ((x, d) ∷ ds)),
        run,
        held',
        due-undue (count_down ((x, d) ∷ ds)),
        λ y i. expiry-count_down y x d ds pos i,
      )
