-- ===== src/System/Tests.antt =====
-- An empty queue for system calls, at 500, of two messages, stored from 1000 on. Messages are sent
-- from 2000 and received at 3000.
use stm32_os.Common.{ℕ, ◌+◌, ◌<◌, List, [], ◌∷◌, arith, refl, inl, inr}
use stm32_os.Port.{OsState, queue_id}
use stm32_os.Thread.{Threads}
use stm32_os.Queue.Fifo.{messages}
use stm32_os.Queue.{Queue, Queues}
use stm32_os.Queue.Access.{Holds}
use stm32_os.System.{
  SystemCall, Message, call_message, fields, put_message, gives_up, system_call_use,
}
use stm32_os.System.Words.{Small}
use stm32_os.System.Serve.{AllCallable, Ready, Served, calls_of, serve-calls}
use stm32_os.System.Call.{Called, system_call_use-served}

abbrev empty_queue : Queue
empty_queue = record {
  type_id = queue_id;
  name = 0;
  state = OsState.ready;
  message_size = 32;
  capacity = 2;
  enqueued_number = 0;
  available_storage = 2;
  queue_start = 1000;
  queue_end = 1064;
  read_ptr = 0;
  write_ptr = 1000;
}

abbrev one_call : Message
one_call = call_message 700 2 5 6 7 8

-- The queue with one message, which stands in its first slot.
abbrev full_queue : Queue
full_queue = record empty_queue {
  enqueued_number = 1;
  available_storage = 1;
  read_ptr = 1000;
  write_ptr = 1032;
}

abbrev queues : Queue → Queues
queues q = record {
  queue = λ p. q;
  create = record { next = λ p. p; previous = λ p. p };
  create_ptr = 500;
  kmem_own = λ p. p + 1;
  memory = put_message 1000 one_call (λ a. 0);
}

abbrev waiting : List (List ℕ)
waiting = messages full_queue 0 (queues full_queue).memory

empty-Holds : Holds (queues empty_queue) 500 0 []
empty-Holds = record {
  valid = record {
    size_pos = omega arith;
    start_pos = omega arith;
    fits = omega arith;
    end_at = refl;
    slot = omega arith;
    room = refl;
    small = omega arith;
    read_at = refl;
    write_at = refl;
    ready = refl;
  };
  holds = refl;
}

full-Holds : Holds (queues full_queue) 500 0 waiting
full-Holds = record {
  valid = record {
    size_pos = omega arith;
    start_pos = omega arith;
    fits = omega arith;
    end_at = refl;
    slot = omega arith;
    room = refl;
    small = omega arith;
    read_at = refl;
    write_at = refl;
    ready = refl;
  };
  holds = refl;
}

queues-Ready : (message : ℕ) → 1064 < message → Ready (queues empty_queue) 500 message
queues-Ready message lt = record {
  queue = omega arith;
  dest = omega arith;
  size = refl;
  apart = inl (omega arith);
}

one-Small : Small (fields one_call)
one-Small = (
  omega arith,
  (
    omega arith,
    (omega arith, (omega arith, (omega arith, (omega arith, (omega arith, (omega arith, tt)))))),
  ),
)

full-Ready : Ready (queues full_queue) 500 3000
full-Ready = record {
  queue = omega arith;
  dest = omega arith;
  size = refl;
  apart = inl (omega arith);
}

waiting-AllCallable : AllCallable waiting
unfolding stm32_os.System.message_at put_message stm32_os.System.put_words
waiting-AllCallable = (inr (omega arith), tt)

serve-calls_example : Served (queues full_queue) 500 3000 2 (calls_of waiting)
serve-calls_example =
    serve-calls 500 3000 0 2 (queues full_queue) waiting full-Holds full-Ready (omega arith)
      waiting-AllCallable

abbrev threads : Threads
threads = record {
  type_id = λ x. 0;
  name = λ x. 0;
  state = λ x. OsState.ready;
  top_of_stack = λ x. 0;
  func = λ x. 0;
  input_para = λ x. 0;
  time_slice_new = λ x. 2;
  time_slice_current = λ x. 1;
  create = record { next = λ x. x; previous = λ x. x };
  ready = record { next = λ x. x; previous = λ x. x };
  timer_own = λ x. 0;
  kmem_list = λ x. 0;
  word = λ x. 0;
  created_ptr = 700;
  current_ptr = 700;
  execute_ptr = 0;
  kernel_thread_ptr = 800;
  created_count = 1;
}

system_call_use-served_example :
    Called
      (threads, queues empty_queue)
      500
      3000
      2
      0
      ((SystemCall.thread_sleeping, one_call) ∷ [])
      (system_call_use 500 2000 9 (λ i. OsState.ready) 2 5 6 7 8 (threads, queues empty_queue))
unfolding gives_up
system_call_use-served_example =
    system_call_use-served 500 2000 3000 0 2 9 (λ i. OsState.ready) 2 5 6 7 8 threads
      (queues empty_queue) [] empty-Holds (queues-Ready 2000 (omega arith))
      (queues-Ready 3000 (omega arith)) one-Small (omega arith) (omega arith) tt
