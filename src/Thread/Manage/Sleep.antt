-- ===== src/Thread/Manage/Sleep.antt =====
-- `os_thread_sleeping` and `os_thread_resume`: a thread sleeps and wakes up.
use stm32_os.Common.{
  ℕ, ◌<◌, ◌^◌, ◌≡◌, ◌≢◌, true, false, some, List, [], ◌∷◌, ◌++◌, arith, ==-false, has, length, ap,
  ◌∙◌, refl,
}
use stm32_os.Port.{OsState, Kmem, is_ready, sram_size}
use stm32_os.Timer.{Timers, os_timer_create}
use stm32_os.Timer.Deltas.{Deltas, addrs, Holds, expiry}
use stm32_os.Timer.Service.{os_timer_create-expiry}
use stm32_os.Thread.{Threads, ThreadList, task_switch_context}
use stm32_os.Thread.Lists.{ListHolds, os_thread_add_to_list-append}
use stm32_os.Thread.Switch.{task_switch_context-waiting, task_switch_context_state}
use stm32_os.Thread.Manage.{
  World, put_to_sleep, owned, sleep_with, os_thread_sleeping, os_thread_resume,
}

-- A sleeping thread that is in no list and is resumed stands at the end of the list of those that
-- can run, is ready, and owns no timer.
pub os_thread_resume-append :
    (t : ℕ) (s : Threads) (xs : List ℕ)
    → ListHolds ThreadList.current s xs
    → has t xs ≡ false
    → t ≢ 0
    → s.state t ≡ OsState.sleeping
    → ((os_thread_resume t s).0 ≡ 0)
      × ListHolds ThreadList.current (os_thread_resume t s).1 (xs ++ t ∷ [])
      × ((os_thread_resume t s).1.state t ≡ OsState.ready)
      × ((os_thread_resume t s).1.timer_own t ≡ 0)
unfolding os_thread_resume
os_thread_resume-append t s xs held new nn asleep =
    rw (==-false t 0 nn, asleep)
      (
        refl,
        os_thread_add_to_list-append ThreadList.current t s xs held new nn,
        ground arith,
        ground arith,
      )

module _ (M : Kmem) where
  open M use {Store, kmem_malloc, start}

  sleep_with-some :
      (resume x ticks : ℕ) (w : World M) (k n : ℕ) (h h' : Store) (t' : Timers)
      → w.threads.current_ptr ≡ x
      → os_timer_create M (w.threads.name x) resume x ticks (owned M (start k h) k w.timers, h)
        ≡ some (n, t', h')
      → sleep_with M resume x ticks w (k, h)
        ≡ some (
          0,
          true,
          record { threads = put_to_sleep M x (start k h) w.threads; timers = t'; store = h' },
        )
  unfolding sleep_with
  sleep_with-some resume x ticks w k n h h' t' at run = ground (arith, run)

  sleeping-with :
      (resume x ticks : ℕ) (w : World M)
      → x ≢ 0
      → ticks ≢ 0
      → w.threads.timer_own x ≡ 0
      → os_thread_sleeping M resume x ticks w
        ≡ sleep_with M resume x ticks w (kmem_malloc 32 w.store)
  unfolding os_thread_sleeping
  sleeping-with resume x ticks w nn nt free = rw (==-false x 0 nn, ==-false ticks 0 nt, free)

  -- The running thread, which owns no timer, goes to sleep for a number of ticks that is not 0 and
  -- has 32 bits, none is to be executed first, the timer list is valid and shorter than the RAM is
  -- large, and the allocator gives memory twice, the second time memory that no timer uses. The
  -- call succeeds and asks for a switch, and leaves a timer that resumes the thread after exactly
  -- that many interrupts. After the switch the thread is out of the list of those that can run and
  -- the one behind it runs; when the timer resumes it, it stands at the end of that list.
  pub os_thread_sleeping-wakes :
      (resume x ticks : ℕ) (w : World M) (xs : List ℕ) (ds : Deltas) (k1 k2 : ℕ) (h1 h2 : Store)
      → ListHolds ThreadList.current w.threads (x ∷ xs)
      → w.threads.execute_ptr ≡ 0
      → w.threads.timer_own x ≡ 0
      → ticks ≢ 0
      → ticks < 2 ^ 32
      → Holds w.timers ds
      → length ds < sram_size
      → kmem_malloc 32 w.store ≡ (k1, h1)
      → kmem_malloc 32 h1 ≡ (k2, h2)
      → k2 ≢ 0
      → start k2 h2 ≢ 0
      → has (start k2 h2) (addrs ds) ≡ false
      → (w' : World M) × (ds' : Deltas) × (os_thread_sleeping M resume x ticks w
          ≡ some (0, true, w'))
        × Holds w'.timers ds'
        × (expiry (start k2 h2) ds' ≡ ticks)
        × (w'.timers.timer_timeout_function (start k2 h2) ≡ resume)
        × (w'.timers.input_para (start k2 h2) ≡ x)
        × ListHolds ThreadList.current (task_switch_context w'.threads) xs
        × ListHolds ThreadList.current
            (os_thread_resume x (task_switch_context w'.threads)).1
            (xs ++ x ∷ [])
  os_thread_sleeping-wakes resume x ticks w xs ds k1 k2 h1 h2 held ex free nt lt timers fuel e1 e2
        nk nn new =
      let at : w.threads.current_ptr ≡ x = held.0 in
      let nx : x ≢ 0 = ground arith in
      let (t', ds', run, timers', func, para, fires, _) =
        os_timer_create-expiry M (w.threads.name x) resume x ticks
          (owned M (start k1 h1) k1 w.timers) h1 h2 k2 ds
          (record { ring = timers.ring; ticks = timers.ticks }) nt lt e2 nk nn new fuel in
      let s' = put_to_sleep M x (start k1 h1) w.threads in
      let asleep : s'.state x ≡ OsState.sleeping = ground arith in
      let gone : ListHolds ThreadList.current (task_switch_context s') xs =
        task_switch_context-waiting s' x xs held ex (ap is_ready asleep) in
      (
        record { threads = s'; timers = t'; store = h2 },
        ds',
        sleeping-with resume x ticks w nx nt free
            ∙ ap (sleep_with M resume x ticks w) e1
            ∙ sleep_with-some resume x ticks w k1 (start k2 h2) h1 h2 t' at run,
        timers',
        fires,
        func,
        para,
        gone,
        (os_thread_resume-append x (task_switch_context s') xs gone held.1.0 nx
            (task_switch_context_state s' x ∙ asleep)).1,
      )
