-- ===== src/Thread/Tests.antt =====
-- Three ready threads, at 2000, 4000 and 6000, and a fourth one at 8000 that is in no list, or that
-- is to be executed first.
use stm32_os.Common.{
  ℕ, ◌+◌, ◌-◌, ◌*◌, ◌%◌, ◌≤◌, ◌<◌, ◌≡◌, true, some, List, [], ◌∷◌, arith, ◌==◌, if◌then◌else◌, has,
  refl,
}
use stm32_os.Port.{OsState, is_ready}
use stm32_os.Port.Tests.{heap}
use stm32_os.Timer.Deltas.{Deltas, Holds, expiry}
use stm32_os.Timer.Tests.{two_timers, two, two_timers-Holds}
use stm32_os.Thread.{Threads, ThreadList, task_switch_context}
use stm32_os.Thread.Lists.{ListHolds}
use stm32_os.Thread.Switch.{switches, switches-turn}
use stm32_os.Thread.First.{task_switch_context-first}
use stm32_os.Thread.Slice.{ticks, Sliced, ticks-Sliced}
use stm32_os.Thread.Manage.{
  World, os_thread_delete, os_thread_create, os_thread_resume, os_thread_sleeping,
}
use stm32_os.Thread.Manage.Build.{IsFrame}
use stm32_os.Thread.Manage.Create.{os_thread_create-IsFrame}
use stm32_os.Ring.Chain.{IsRing}
use stm32_os.Ring.Unlink.{head_without}
use stm32_os.Thread.Manage.Delete.{os_thread_delete-erase}
use stm32_os.Thread.Manage.Sleep.{os_thread_sleeping-wakes}

-- The heads, and the state of the thread at 2000.
abbrev three : (current execute : ℕ) → OsState → Threads
three current execute at_2000 = record {
  type_id = λ x. 0;
  name = λ x. 0;
  state = λ x. if x == 2000 then at_2000 else OsState.ready;
  top_of_stack = λ x. 0;
  func = λ x. 0;
  input_para = λ x. 0;
  time_slice_new = λ x. 2;
  time_slice_current = λ x. 1;
  create = record {
    next = λ x. if x == 6000 then 2000 else x + 2000;
    previous = λ x. if x == 2000 then 6000 else x - 2000;
  };
  ready = record {
    next = λ x. if x == 8000 then 8000 else if x == 6000 then 2000 else x + 2000;
    previous = λ x. if x == 8000 then 8000 else if x == 2000 then 6000 else x - 2000;
  };
  timer_own = λ x. 0;
  kmem_list = λ x. 0;
  word = λ x. 0;
  created_ptr = 2000;
  current_ptr = current;
  execute_ptr = execute;
  kernel_thread_ptr = 2000;
  created_count = 3;
}

abbrev xs : List ℕ
xs = 2000 ∷ 4000 ∷ 6000 ∷ []

run-Holds : ListHolds ThreadList.current (three 2000 0 OsState.ready) xs
run-Holds = (refl, (refl, (refl, (refl, tt))), refl, (refl, refl, (refl, refl, (refl, refl))))

wait-Holds : ListHolds ThreadList.current (three 2000 0 OsState.sleeping) xs
wait-Holds = (refl, (refl, (refl, (refl, tt))), refl, (refl, refl, (refl, refl, (refl, refl))))

all-Holds : ListHolds ThreadList.created (three 2000 0 OsState.ready) xs
all-Holds = (refl, (refl, (refl, (refl, tt))), refl, (refl, refl, (refl, refl, (refl, refl))))

both-Holds : ListHolds ThreadList.current (three 2000 8000 OsState.ready) xs
both-Holds = (refl, (refl, (refl, (refl, tt))), refl, (refl, refl, (refl, refl, (refl, refl))))

all_ready : (x : ℕ) → has x xs ≡ true → is_ready ((three 2000 0 OsState.ready).state x) ≡ true
all_ready x i = ground arith

switches-turn_example :
    ListHolds ThreadList.current (switches 2 (three 2000 0 OsState.ready)) (6000 ∷ 2000 ∷ 4000 ∷ [])
switches-turn_example =
    switches-turn (2000 ∷ 4000 ∷ []) (6000 ∷ []) (three 2000 0 OsState.ready) run-Holds refl
      all_ready

task_switch_context-first_example :
    ListHolds ThreadList.current
      (task_switch_context (three 2000 8000 OsState.ready))
      (8000 ∷ 2000 ∷ 4000 ∷ 6000 ∷ [])
    × ListHolds ThreadList.execute (task_switch_context (three 2000 8000 OsState.ready)) []
task_switch_context-first_example =
    task_switch_context-first 8000 (three 2000 8000 OsState.ready) xs
      (refl, (refl, tt), refl, (refl, refl)) both-Holds refl

ticks-Sliced_example :
    (left' : ℕ) × Sliced (ticks 3 (three 2000 0 OsState.ready)).0 2000 left' 2
    × (0 < left')
    × (left' ≤ 2)
    × (3 + left' ≡ 1 + (ticks 3 (three 2000 0 OsState.ready)).1 * 2)
ticks-Sliced_example =
    ticks-Sliced 3 (three 2000 0 OsState.ready) 2000 1 2
      (record { running = refl; slice = refl; remaining = refl }) (omega arith) (omega arith)
      (omega arith) (omega arith)

os_thread_create-IsFrame_example :
    let s' = (os_thread_create 1 8000 2 3 4 5 (three 2000 0 OsState.ready)).1 in
    IsFrame s'.word (s'.top_of_stack 8000) 4 1 3
    × (s'.top_of_stack 8000 % 8 ≡ 0)
    × (8016 ≤ s'.top_of_stack 8000)
    × (s'.top_of_stack 8000 + 64 ≤ 9040)
os_thread_create-IsFrame_example =
    os_thread_create-IsFrame 1 8000 2 3 4 5 (three 2000 0 OsState.ready)

-- The thread at 2000 sleeps, and the two others run: 4000 and 6000.
abbrev asleep : Threads
asleep = record (three 4000 0 OsState.sleeping) {
  ready = record {
    next = λ x. if x == 4000 then 6000 else 4000;
    previous = λ x. if x == 4000 then 6000 else 4000;
  };
}

abbrev world : World heap
world = record { threads = three 2000 0 OsState.ready; timers = two_timers; store = 1000 }

os_thread_sleeping-wakes_example :
    (w' : World heap) × (ds' : Deltas) × (os_thread_sleeping heap 77 2000 6 world
      ≡ some (0, true, w'))
    × Holds w'.timers ds'
    × (expiry 1100 ds' ≡ 6)
    × (w'.timers.timer_timeout_function 1100 ≡ 77)
    × (w'.timers.input_para 1100 ≡ 2000)
    × ListHolds ThreadList.current (task_switch_context w'.threads) (4000 ∷ 6000 ∷ [])
    × ListHolds ThreadList.current
        (os_thread_resume 2000 (task_switch_context w'.threads)).1
        (4000 ∷ 6000 ∷ 2000 ∷ [])
os_thread_sleeping-wakes_example =
    os_thread_sleeping-wakes heap 77 2000 6 world (4000 ∷ 6000 ∷ []) two 1000 1064 1064 1128
      run-Holds refl refl (omega arith) (omega arith) two_timers-Holds (omega arith) refl refl
      (omega arith) (omega arith) refl

-- The same threads, each with one block of memory.
abbrev owning : World heap
owning = record world { threads = record (three 2000 0 OsState.ready) { kmem_list = λ x. x + 100 } }

os_thread_delete-erase_example :
    (w' : World heap) × (os_thread_delete heap 4000 owning ≡ some (0, w'))
    × ListHolds ThreadList.current w'.threads (2000 ∷ 6000 ∷ [])
    × IsRing w'.threads.create
        (head_without 4000 owning.threads.created_ptr owning.threads.create)
        (2000 ∷ 6000 ∷ [])
    × (w'.threads.created_ptr ≡ 2000)
    × (w'.timers ≡ two_timers)
    × (w'.store ≡ 1000)
os_thread_delete-erase_example =
    os_thread_delete-erase heap 4000 owning xs xs all-Holds run-Holds refl refl refl (omega arith)
      refl (omega arith) refl
