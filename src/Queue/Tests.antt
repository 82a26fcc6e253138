-- ===== src/Queue/Tests.antt =====
-- A queue at 500 of two messages of two bytes, stored from 600 on: it holds one message, in the
-- second slot.
use stm32_os.Common.{ℕ, ◌+◌, ◌≡◌, List, [], ◌∷◌, arith, refl, inl}
use stm32_os.Port.{OsState, queue_id}
use stm32_os.Ring.Chain.{IsRing}
use stm32_os.Queue.{Queue, Queues, os_queue_send, os_queue_receive}
use stm32_os.Queue.Fifo.{IsValid}
use stm32_os.Queue.Access.{Holds, Received, os_queue_send-fifo, os_queue_receive-fifo}

abbrev one : Queue
one = record {
  type_id = queue_id;
  name = 0;
  state = OsState.ready;
  message_size = 2;
  capacity = 2;
  enqueued_number = 1;
  available_storage = 1;
  queue_start = 600;
  queue_end = 604;
  read_ptr = 602;
  write_ptr = 600;
}

abbrev queues : Queues
queues = record {
  queue = λ p. one;
  create = record { next = λ p. p; previous = λ p. p };
  create_ptr = 500;
  kmem_own = λ p. p + 1;
  memory = λ a. a;
}

abbrev ms : List (List ℕ)
ms = (602 ∷ 603 ∷ []) ∷ []

one-IsValid : IsValid one 1
one-IsValid = record {
  size_pos = omega arith;
  start_pos = omega arith;
  fits = omega arith;
  end_at = refl;
  slot = omega arith;
  room = refl;
  small = omega arith;
  read_at = refl;
  write_at = refl;
  ready = refl;
}

one-Holds : Holds queues 500 1 ms
one-Holds = record { valid = one-IsValid; holds = refl }

one-IsRing : IsRing queues.create queues.create_ptr (500 ∷ [])
one-IsRing = (refl, (refl, tt), refl, (refl, refl))

os_queue_send-fifo_example :
    ((os_queue_send 500 800 queues).0 ≡ 0)
    × Holds (os_queue_send 500 800 queues).1 500 1 ((602 ∷ 603 ∷ []) ∷ (800 ∷ 801 ∷ []) ∷ [])
os_queue_send-fifo_example =
    os_queue_send-fifo 500 800 1 queues ms one-Holds (omega arith) (omega arith)

os_queue_receive-fifo_example : Received 500 800 1 queues ms (os_queue_receive 500 800 queues)
os_queue_receive-fifo_example =
    os_queue_receive-fifo 500 800 1 queues ms one-Holds (omega arith) (omega arith)
      (inl (omega arith))
