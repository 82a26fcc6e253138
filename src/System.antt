-- ===== src/System.antt =====
-- system_call/system_call.c, and the kernel thread of thread_manage/thread_manage.c: a system call
-- is a message to the kernel thread through the queue `os_queue`.
pub mod Words
pub mod Serve
pub mod Call
mod Tests
use stm32_os.Common.{
  ℕ, zero, suc, ◌+◌, ◌-◌, ◌*◌, ◌/◌, ◌%◌, ◌^◌, Bool, true, false, Option, none, some, List, [], ◌∷◌,
  ◌&&◌, ◌==◌, leb, ltb, if◌then◌else◌, nonzero,
}
use stm32_os.Port.{OsState, Kmem, bad_argument, not_now}
use stm32_os.Thread.{Threads, task_switch_to_kernel_thread}
use stm32_os.Thread.Manage.{World, os_thread_create, os_thread_delete}
use stm32_os.Queue.{Memory, Queues, os_queue_create, os_queue_receive, os_queue_send}

abbrev pub system_call_message_id : ℕ
system_call_message_id = 0xFEFE0000

-- OS_QUEUE_MESSAGE_SIZE, OS_QUEUE_CAPACITY, OS_THREAD_ERROR_RETURN_ID
abbrev pub os_queue_message_size : ℕ
os_queue_message_size = 32

abbrev pub os_queue_capacity : ℕ
os_queue_capacity = 32

abbrev pub error_return_id : ℕ
error_return_id = 0xFFFF00FE

-- SYSTEM_CALL_MESSAGE_STRUCT: 8 words, in the order of the fields.
pub record Message : Type 0 where
  pub type_id : ℕ
  pub action_thread_ptr : ℕ
  pub func_id : ℕ  -- system_call_func_id
  pub input_para0 : ℕ
  pub input_para1 : ℕ
  pub input_para2 : ℕ
  pub input_para3 : ℕ
  pub reserved : ℕ

-- A word is stored with its lowest byte first.
abbrev pub word_byte : (w i : ℕ) → ℕ
word_byte w i = w / 2 ^ (8 * i) % 2 ^ 8

abbrev pub put_word : (a w : ℕ) → Memory → Memory
put_word a w m b = if leb a b && ltb b (a + 4) then word_byte w (b - a) else m b

abbrev pub word_at : Memory → ℕ → ℕ
word_at m a = m a + 2 ^ 8 * m (a + 1) + 2 ^ 16 * m (a + 2) + 2 ^ 24 * m (a + 3)

-- The words are stored one behind the other.
pub put_words : (a : ℕ) → List ℕ → Memory → Memory
put_words a [] m = m
put_words a (w ∷ ws) m = put_word a w (put_words (a + 4) ws m)

abbrev pub fields : Message → List ℕ
fields x =
    x.type_id ∷ x.action_thread_ptr ∷ x.func_id ∷ x.input_para0 ∷ x.input_para1 ∷ x.input_para2
    ∷ x.input_para3 ∷ x.reserved ∷ []

pub put_message : (a : ℕ) → Message → Memory → Memory
put_message a x m = put_words a (fields x) m

pub message_at : Memory → ℕ → Message
message_at m a = record {
  type_id = word_at m a;
  action_thread_ptr = word_at m (a + 4);
  func_id = word_at m (a + 8);
  input_para0 = word_at m (a + 12);
  input_para1 = word_at m (a + 16);
  input_para2 = word_at m (a + 20);
  input_para3 = word_at m (a + 24);
  reserved = word_at m (a + 28);
}

-- The functions of `system_call_array`, the last three without their prefix `os_`.
pub data SystemCall : Type 0 where
  thread_create thread_delete thread_sleeping thread_resume : SystemCall

-- The entry for a number: the other ones below 512 are NULL, and behind them there is no array.
-- `none` stands for both.
pub system_call_array : (func_id : ℕ) → Option SystemCall
system_call_array func_id =
    if func_id == 0
    then some SystemCall.thread_create
    else if func_id == 1
    then some SystemCall.thread_delete
    else if func_id == 2
    then some SystemCall.thread_sleeping
    else if func_id == 3
    then some SystemCall.thread_resume
    else none

-- The message of a call, from the thread that runs.
abbrev pub call_message : (thread func_id para0 para1 para2 para3 : ℕ) → Message
call_message thread func_id para0 para1 para2 para3 = record {
  type_id = system_call_message_id;
  action_thread_ptr = thread;
  func_id = func_id;
  input_para0 = para0;
  input_para1 = para1;
  input_para2 = para2;
  input_para3 = para3;
  reserved = 0;
}

abbrev pub is_waiting : OsState → Bool
is_waiting OsState.wait_for_system_call = true
is_waiting _ = false

-- The for loop of `system_call_use`: `os_state i` is what it reads in its test for `i`. Whether the
-- call is given up, after 100000 tests; `os_state` is then set to READY, which nothing here reads.
pub gives_up : (count i : ℕ) → (ℕ → OsState) → Bool
gives_up zero i os_state = is_waiting (os_state i)
gives_up (suc count) i os_state =
    let later = gives_up count (i + 1) os_state in if is_waiting (os_state i) then later else false

-- `os_queue` and `message` are addresses: of the queue, and of the structure that is sent or
-- received.
module _ (os_queue message : ℕ) where
  -- The message is sent, and the kernel thread runs next. Whether the queue took the message is not
  -- tested.
  pub system_call_send : (func_id para0 para1 para2 para3 : ℕ) → Threads × Queues → Threads × Queues
  system_call_send func_id para0 para1 para2 para3 (t, q) =
      let x = call_message t.current_ptr func_id para0 para1 para2 para3 in
      let q1 = record q { memory = put_message message x q.memory } in
      (task_switch_to_kernel_thread t, (os_queue_send os_queue message q1).1)

  -- The argument `tests` is the number of tests, 100000 in the source, before the call is given up.
  pub system_call_use :
      (tests : ℕ)
      → (ℕ → OsState)
      → (func_id para0 para1 para2 para3 : ℕ) → Threads × Queues
      → ℕ × Threads × Queues
  system_call_use tests os_state func_id para0 para1 para2 para3 s =
      let (t, q) = s in
      let (t', q') = system_call_send func_id para0 para1 para2 para3 s in
      if ltb func_id 512
      then (if gives_up tests 0 os_state then not_now else 0, t', q')
      else (bad_argument, t, q)

  -- The inner loop of `init_func`: the kernel thread serves all messages of the queue, which it
  -- receives at `message` (`os_message`). The result has the calls in their order, each with the
  -- message that gives its arguments, and whether the loop came to its end: `false` where a message
  -- asks for a function that `system_call_array` does not have, whose call faults. What a function
  -- does to the queue is left out: none of them uses it. `none` means that the fuel ran out.
  pub serve : ℕ → Queues → Option (Bool × List (SystemCall × Message) × Queues)
  serve zero q = none
  serve (suc k) q =
      let q1 = (os_queue_receive os_queue message q).1 in
      let x = message_at q1.memory message in
      let rest = serve k q1 in
      let called : Option (Bool × List (SystemCall × Message) × Queues) =
        elim (system_call_array x.func_id) [
          | none ↦ some (false, [], q1)
          | some func ↦ (elim rest [
            | none ↦ none
            | some (ended, calls, q2) ↦ some (ended, (func, x) ∷ calls, q2)
          ])
        ] in
      if nonzero (q.queue os_queue).enqueued_number
      then (if x.type_id == system_call_message_id then called else rest)
      else some (true, [], q)

-- The lists of threads are emptied, the kernel thread is created, and its queue. The arguments are
-- the addresses of `os_thread_init`, `os_queue`, `os_queue_buff`, of the names, of `init_func` and
-- of `thread_return_handle`.
pub os_thread_initialize :
    (thread queue buff thread_name queue_name init_func on_return : ℕ)
    → Threads × Queues
    → Threads × Queues
os_thread_initialize thread queue buff thread_name queue_name init_func on_return (t, q) =
    let t1 = record t {
      created_ptr = 0;
      current_ptr = 0;
      execute_ptr = 0;
      kernel_thread_ptr = thread;
      created_count = 0;
    } in
    (
      (os_thread_create on_return thread thread_name init_func 0 2 t1).1,
      (os_queue_create queue queue_name os_queue_message_size buff os_queue_capacity q).1,
    )

-- How `thread_return_handle` ends: the chip is reset, or the thread that returned is deleted and a
-- switch is asked for.
pub data Outcome (M : Kmem) : Type 0 where
  os_reset : Outcome M
  yield : World M → Outcome M

pub thread_return_handle : (M : Kmem) → (para : ℕ) → World M → Option (Outcome M)
thread_return_handle M para w =
    if para == error_return_id
    then some Outcome.os_reset
    else elim (os_thread_delete M w.threads.current_ptr w) [
      | none ↦ none
      | some (_, w') ↦ some (Outcome.yield w')
    ]
