-- ===== src/Thread.antt =====
-- thread_manage/operate_thread_list.c and thread_manage/task_switch_context.c: the lists of
-- threads and the choice of the next one. The fields of an OS_THREAD are functions of its address.
pub mod Manage
pub mod Lists
pub mod Switch
pub mod First
pub mod Slice
mod Tests
use stm32_os.Common.{ℕ, Bool, true, false, ◌&&◌, not, ◌==◌, if◌then◌else◌, nonzero, update}
use stm32_os.Port.{OsState, is_ready, sub32}
use stm32_os.Ring.{Links, insert_before, self_link, unlink}

pub record Threads : Type 0 where
  pub type_id : ℕ → ℕ
  pub name : ℕ → ℕ
  pub state : ℕ → OsState
  pub top_of_stack : ℕ → ℕ
  pub func : ℕ → ℕ
  pub input_para : ℕ → ℕ
  pub time_slice_new : ℕ → ℕ
  pub time_slice_current : ℕ → ℕ
  pub create : Links  -- os_thread_create_next, os_thread_create_previous
  pub ready : Links  -- os_thread_ready_next, os_thread_ready_previous
  pub timer_own : ℕ → ℕ
  pub kmem_list : ℕ → ℕ
  pub word : ℕ → ℕ  -- the words of the threads' stacks, by their addresses
  pub created_ptr : ℕ  -- os_thread_created_ptr
  pub current_ptr : ℕ  -- os_thread_current_ptr
  pub execute_ptr : ℕ  -- os_thread_execute_ptr
  pub kernel_thread_ptr : ℕ  -- os_thread_kernel_thread_ptr
  pub created_count : ℕ  -- os_thread_created_count

-- The pointers that `OS_THREAD **thread_list` may point to.
pub data ThreadList : Type 0 where
  created current execute : ThreadList

abbrev pub head_of : ThreadList → Threads → ℕ
head_of ThreadList.created s = s.created_ptr
head_of ThreadList.current s = s.current_ptr
head_of ThreadList.execute s = s.execute_ptr

-- *thread_list = p;
abbrev pub set_head : ThreadList → ℕ → Threads → Threads
set_head ThreadList.created p s = record s { created_ptr = p }
set_head ThreadList.current p s = record s { current_ptr = p }
set_head ThreadList.execute p s = record s { execute_ptr = p }

-- The links by which a list is threaded: the list of all threads has its own.
abbrev pub links_of : ThreadList → Threads → Links
links_of ThreadList.created s = s.create
links_of _ s = s.ready

abbrev pub set_links : ThreadList → Links → Threads → Threads
set_links ThreadList.created l s = record s { create = l }
set_links ThreadList.current l s = record s { ready = l }
set_links ThreadList.execute l s = record s { ready = l }

-- The pointer to a list is never NULL here. The head that follows a removed head is read through
-- the links of the list.
pub os_thread_remove_from_list : ThreadList → ℕ → Threads → Threads
os_thread_remove_from_list list thread s =
    let l = unlink thread (links_of list s) in
    let s1 = set_links list l s in
    let next = if l.next thread == thread then 0 else l.next thread in
    if nonzero thread then (if head_of list s1 == thread then set_head list next s1 else s1) else s

-- The source tests `thread_list && thread_list`: the thread itself is not tested.
pub os_thread_add_to_list : ThreadList → ℕ → Threads → Threads
os_thread_add_to_list list thread s =
    let h = head_of list s in
    if h == 0
    then set_links list (self_link thread (links_of list s)) (set_head list thread s)
    else set_links list (insert_before h thread (links_of list s)) s

-- The first block of `task_switch_context`: where no thread can run, the kernel thread does.
pub run_kernel_thread : Threads → Threads
run_kernel_thread s =
    let kernel = s.kernel_thread_ptr in
    if (s.current_ptr == 0) && (s.execute_ptr == 0)
    then record s { ready = self_link kernel s.ready; execute_ptr = kernel }
    else s

-- Its second block: the thread that is to be executed first joins the others, and runs.
pub run_first : Threads → Threads
run_first s =
    let thread = s.execute_ptr in
    let joined =
      os_thread_add_to_list ThreadList.current thread
        (os_thread_remove_from_list ThreadList.execute thread s) in
    record joined { current_ptr = thread }

-- Its last block: a thread that is not ready leaves the list, else the next one runs.
pub run_next : Threads → Threads
run_next s =
    if not (is_ready (s.state s.current_ptr))
    then os_thread_remove_from_list ThreadList.current s.current_ptr s
    else record s { current_ptr = s.ready.next s.current_ptr }

pub task_switch_context : Threads → Threads
task_switch_context s =
    let s1 = run_kernel_thread s in if nonzero s1.execute_ptr then run_first s1 else run_next s1

pub task_switch_to_kernel_thread : Threads → Threads
task_switch_to_kernel_thread s =
    let kernel = s.kernel_thread_ptr in
    let l : Links = record {
      next = update s.ready.next kernel s.current_ptr;
      previous = update s.ready.previous kernel (s.ready.previous s.current_ptr);
    } in
    if s.current_ptr == kernel then s else record s {
      ready = l;
      current_ptr = kernel;
      time_slice_current = update s.time_slice_current kernel (s.time_slice_new kernel);
    }

-- With the new state, whether the handler asks for a switch (`THREAD_YILED`).
pub sys_tick_handler : Threads → Threads × Bool
sys_tick_handler s =
    let cur = s.current_ptr in
    let spent = sub32 (s.time_slice_current cur) 1 in
    if nonzero cur
    then (if spent == 0
        then (
          record s { time_slice_current = update s.time_slice_current cur (s.time_slice_new cur) },
          true,
        )
        else (record s { time_slice_current = update s.time_slice_current cur spent }, false))
    else (s, false)
