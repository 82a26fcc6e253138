-- ===== src/Thread/Manage.antt =====
-- thread_manage/os_thread_manage.c and thread_manage/thread_manage.c: threads are created, sleep,
-- are resumed and are deleted. The stack of a thread begins 16
-- bytes from its address, after `type_id`, `name`, `state` and `top_of_stack`.
pub mod Build
pub mod Create
pub mod Sleep
pub mod Delete
use stm32_os.Common.{
  ℕ, zero, suc, ◌+◌, ◌-◌, ◌*◌, ◌%◌, ◌≡◌, Bool, true, false, Option, none, some, List, [], ◌∷◌, ◌&&◌,
  not, leb, ltb, ◌==◌, if◌then◌else◌, nonzero, update,
}
use stm32_os.Port.{
  OsState, Kmem, is_ready, is_sleeping, sram_size, thread_id, os_success, bad_argument, add32,
  sub32,
}
use stm32_os.Ring.{Links, insert_before, self_link, unlink}
use stm32_os.Timer.{Timers, os_timer_create, os_timer_delete}
use stm32_os.Thread.{
  Threads, ThreadList, os_thread_add_to_list, os_thread_remove_from_list, task_switch_context,
}

-- portINITIAL_XPSR
abbrev pub initial_xpsr : ℕ
initial_xpsr = 0x01000000

-- `thread_ptr->stack + STACK_SIZE - 1`, aligned downwards to 8 bytes.
abbrev pub stack_top : ℕ → ℕ
stack_top thread = let p = thread + 16 + 4 * 255 in p - p % 8

-- The words that `os_build_stack` writes, and the stack pointer that it returns. The argument
-- `on_return` is the address of `thread_return_handle`.
pub os_build_stack : (on_return thread : ℕ) → Threads → (ℕ → ℕ) × ℕ
os_build_stack on_return thread s =
    let p1 = stack_top thread - 4 in
    let w1 = update s.word p1 initial_xpsr in
    let p2 = p1 - 4 in
    let w2 = update w1 p2 (s.func thread) in
    let p3 = p2 - 4 in
    let w3 = update w2 p3 on_return in
    let p4 = p3 - 4 * 5 in let w4 = update w3 p4 (s.input_para thread) in (w4, p4 - 4 * 8)

-- `memset(thread_ptr,0,sizeof(OS_THREAD))`, with the words of the stack.
pub clear_thread : ℕ → Threads → Threads
clear_thread thread s = record s {
  type_id = update s.type_id thread 0;
  name = update s.name thread 0;
  state = update s.state thread OsState.new;
  top_of_stack = update s.top_of_stack thread 0;
  func = update s.func thread 0;
  input_para = update s.input_para thread 0;
  time_slice_new = update s.time_slice_new thread 0;
  time_slice_current = update s.time_slice_current thread 0;
  create = record {
    next = update s.create.next thread 0;
    previous = update s.create.previous thread 0;
  };
  ready = record {
    next = update s.ready.next thread 0;
    previous = update s.ready.previous thread 0;
  };
  timer_own = update s.timer_own thread 0;
  kmem_list = update s.kmem_list thread 0;
  word = λ a. if leb (thread + 16) a && ltb a (thread + 16 + 4 * 256) then 0 else s.word a;
}

-- The fields that `os_thread_create` sets before it builds the stack ...
pub new_thread : (thread name func para slice : ℕ) → Threads → Threads
new_thread thread name func para slice s =
    let s0 = clear_thread thread s in
    record s0 {
      type_id = update s0.type_id thread thread_id;
      name = update s0.name thread name;
      func = update s0.func thread func;
      input_para = update s0.input_para thread para;
      state = update s0.state thread OsState.new;
      time_slice_new = update s0.time_slice_new thread slice;
      time_slice_current = update s0.time_slice_current thread slice;
    }

-- ... and the stack.
pub set_thread : (on_return thread name func para slice : ℕ) → Threads → Threads
set_thread on_return thread name func para slice s =
    let s1 = new_thread thread name func para slice s in
    let built = os_build_stack on_return thread s1 in
    record s1 { word = built.0; top_of_stack = update s1.top_of_stack thread built.1 }

-- A thread joins a list before its head, or makes the list.
pub join_create : ℕ → Threads → Threads
join_create thread s =
    if nonzero s.created_ptr
    then record s { create = insert_before s.created_ptr thread s.create }
    else record s { created_ptr = thread; create = self_link thread s.create }

pub join_ready : ℕ → Threads → Threads
join_ready thread s =
    if nonzero s.current_ptr
    then record s { ready = insert_before s.current_ptr thread s.ready }
    else record s { current_ptr = thread; ready = self_link thread s.ready }

pub os_thread_create : (on_return thread name func para slice : ℕ) → Threads → ℕ × Threads
os_thread_create on_return thread name func para slice s =
    let s1 =
      join_ready thread (join_create thread (set_thread on_return thread name func para slice s)) in
    (
      os_success,
      record s1 {
        created_count = add32 s1.created_count 1;
        state = update s1.state thread OsState.ready;
      },
    )

-- A sleeping thread is put at the end of the list and is ready. (A BLOCKED one is left alone.)
pub os_thread_resume : ℕ → Threads → ℕ × Threads
os_thread_resume thread s =
    let s1 = os_thread_add_to_list ThreadList.current thread s in
    if nonzero thread
    then (if is_sleeping (s.state thread)
        then (
          0,
          record s1 {
            state = update s1.state thread OsState.ready;
            timer_own = update s1.timer_own thread 0;
          },
        )
        else (0, s))
    else (bad_argument, s)

-- The first part of `os_thread_delete`: a ready thread leaves its list, and the pointers that are
-- to it move on.
pub leave_ready : ℕ → Threads → Threads
leave_ready thread s =
    let l = unlink thread s.ready in
    let moved =
      λ (p : ℕ). if thread == p then (if thread == l.next p then 0 else l.next p) else p in
    if is_ready (s.state thread)
    then record s {
      ready = l;
      current_ptr = moved s.current_ptr;
      execute_ptr = moved s.execute_ptr;
    }
    else s

-- Then it leaves the list of all threads. `os_thread_created_ptr` is left as it is.
pub leave_create : ℕ → Threads → Threads
leave_create thread s = record s { create = unlink thread s.create }

module _ (M : Kmem) where
  open M use {Store, kmem_malloc, start, work_previous, kmem_free}

  pub record World : Type 0 where
    pub threads : Threads
    pub timers : Timers
    pub store : Store

  -- The for loop of `os_thread_delete`, at `kmem_ptr`.
  pub free_list : ℕ → (kmem_list kmem_ptr : ℕ) → Store → Option Store
  free_list zero kmem_list kmem_ptr h = none
  free_list (suc k) kmem_list kmem_ptr h =
      let freed = kmem_free kmem_ptr h in
      let rest = free_list k kmem_list (work_previous kmem_ptr freed) freed in
      if kmem_list == kmem_ptr then some h else rest

  -- `none` means that the loop ran out of fuel.
  pub os_thread_delete : ℕ → World → Option (ℕ × World)
  os_thread_delete thread w =
      let s = w.threads in
      let list = s.kmem_list thread in
      let s1 = leave_create thread (leave_ready thread s) in
      let timed = os_timer_delete M (s1.timer_own thread) (w.timers, w.store) in
      let done : Store → World = λ h. record {
        threads = record s1 { created_count = sub32 s1.created_count 1 };
        timers = timed.0;
        store = kmem_free list h;
      } in
      if nonzero thread && nonzero list
      then (if (s.current_ptr == s.ready.next s.current_ptr) && (s.execute_ptr == 0)
          then some (0xFFFFFFF0, w)
          else elim (free_list sram_size list (work_previous list timed.1) timed.1) [
            | none ↦ none
            | some h ↦ some (0, done h)
          ])
      else some (bad_argument, w)

  -- The threads and the timers before `os_thread_sleeping` makes its timer.
  abbrev pub put_to_sleep : (thread timer : ℕ) → Threads → Threads
  put_to_sleep thread timer s = record s {
    timer_own = update s.timer_own thread timer;
    state = update s.state thread OsState.sleeping;
  }

  abbrev pub owned : (timer kmem : ℕ) → Timers → Timers
  owned timer kmem t = record t { kmem_own = update t.kmem_own timer kmem }

  -- What `os_thread_sleeping` does with the memory that it got. The timer of that memory is not
  -- the one that `os_timer_create` makes.
  pub sleep_with : (resume thread sleep_ticks : ℕ) → World → ℕ × Store → Option (ℕ × Bool × World)
  sleep_with resume thread sleep_ticks w (k, h) =
      let timer = start k h in
      let s1 = put_to_sleep thread timer w.threads in
      let s2 =
        os_thread_remove_from_list ThreadList.execute thread
          (os_thread_remove_from_list ThreadList.current thread s1) in
      let made =
        os_timer_create M (w.threads.name thread) resume thread sleep_ticks
          (owned timer k w.timers, h) in
      elim made [
        | none ↦ none
        | some (_, t', h') ↦
            if thread == w.threads.current_ptr
            then some (0, true, record { threads = s1; timers = t'; store = h' })
            else some (0, false, record { threads = s2; timers = t'; store = h' })
      ]

  -- The argument `resume` is the address of `os_thread_resume`. With the result and the world, it
  -- says whether a switch is asked for (`THREAD_YILED`). `none` means that the loop of
  -- `os_timer_create` ran out of fuel.
  pub os_thread_sleeping : (resume thread sleep_ticks : ℕ) → World → Option (ℕ × Bool × World)
  os_thread_sleeping resume thread sleep_ticks w =
      if nonzero thread && nonzero sleep_ticks && (w.threads.timer_own thread == 0)
      then sleep_with resume thread sleep_ticks w (kmem_malloc 32 w.store)
      else some (bad_argument, false, w)
