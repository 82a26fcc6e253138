-- ===== src/System/Serve.antt =====
-- The kernel thread serves the messages of the queue of system calls.
use stm32_os.Common.{
  ℕ, zero, suc, ◌*◌, ◌<◌, ◌≡◌, ◌≢◌, ◌⊎◌, inl, inr, Bool-cases, true, false, refl, sym, ap, ◌∙◌,
  some, List, [], ◌∷◌, arith, ◌==◌, ==-true, ==-false, if◌then◌else◌, length,
}
use stm32_os.Queue.{Queues, os_queue_receive}
use stm32_os.Queue.Window.{after, Apart}
use stm32_os.Queue.Access.{Holds, length-messages, os_queue_receive-fifo}
use stm32_os.Queue.Shape.{SameStorage, os_queue_receive-SameStorage}
use stm32_os.System.{
  SystemCall, system_call_array, Message, message_at, serve, system_call_message_id,
}
use stm32_os.System.Words.{message_of, message_at-bytes}

abbrev pub Calls : Type 0
Calls = List (SystemCall × Message)

-- The functions by their numbers, of which there are 4.
abbrev pub func_of : ℕ → SystemCall
func_of zero = SystemCall.thread_create
func_of (suc zero) = SystemCall.thread_delete
func_of (suc (suc zero)) = SystemCall.thread_sleeping
func_of (suc (suc (suc n))) = SystemCall.thread_resume

-- The calls among messages, in their order, each with its message.
abbrev pub add_call : Message → Calls → Calls
add_call x calls =
    if x.type_id == system_call_message_id then (func_of x.func_id, x) ∷ calls else calls

-- A message is no system call, or it asks for one of the functions.
abbrev pub Callable : Message → Type 0
Callable x = (x.type_id ≢ system_call_message_id) ⊎ (x.func_id < 4)

abbrev pub AllCallable : List (List ℕ) → Type 0
AllCallable [] = Unit
AllCallable (b ∷ ms) = Callable (message_of b) × AllCallable ms

system_call_array-func_of : (n : ℕ) → n < 4 → system_call_array n ≡ some (func_of n)
unfolding system_call_array
system_call_array-func_of zero lt = refl
system_call_array-func_of (suc zero) lt = refl
system_call_array-func_of (suc (suc zero)) lt = refl
system_call_array-func_of (suc (suc (suc zero))) lt = refl
system_call_array-func_of (suc (suc (suc (suc n)))) lt = absurd (omega arith)

abbrev pub calls_of : List (List ℕ) → Calls
calls_of [] = []
calls_of (b ∷ ms) = add_call (message_of b) (calls_of ms)

-- The storage of a queue of messages of 32 bytes, and the structure at `message` apart from it.
pub record Ready (s : Queues) (p message : ℕ) : Type 0 where
  pub queue : p ≢ 0
  pub dest : message ≢ 0
  pub size : (s.queue p).message_size ≡ 32
  pub apart :
      (let q = s.queue p in
        Apart q.queue_start (q.message_size * q.capacity) message q.message_size)

pub Ready-same :
    (s s' : Queues) (p message : ℕ)
    → SameStorage (s.queue p) (s'.queue p)
    → Ready s p message
    → Ready s' p message
Ready-same s s' p message same r = record {
  queue = r.queue;
  dest = r.dest;
  size = same.size ∙ r.size;
  apart = rw (same.start, same.size, same.cap) (r.apart);
}

-- The kernel thread is done: it has made these calls, and the queue is empty.
pub record Served (s : Queues) (p message k : ℕ) (calls : Calls) : Type 0 where
  pub after : Queues
  pub slot : ℕ
  pub result : serve p message k s ≡ some (true, calls, after)
  pub empty : Holds after p slot []

serve_none : (p message r k : ℕ) (s : Queues) → Holds s p r [] → Served s p message (suc k) []
unfolding serve
serve_none p message r k s held =
    let count = length-messages s p r [] held in
    record {
      after = s;
      slot = r;
      result = rw (==-true (s.queue p).enqueued_number 0 (sym count)) refl;
      empty = held;
    }

serve_some :
    (p message k : ℕ) (s : Queues) (x : Message) (calls : Calls)
    → (s.queue p).enqueued_number ≢ 0
    → (let q1 = (os_queue_receive p message s).1 in
        (message_at q1.memory message ≡ x) × Callable x × Served q1 p message k calls)
    → Served s p message (suc k) (add_call x calls)
unfolding serve
serve_some p message k s x calls some_left (read, known, rest) =
    let q1 = (os_queue_receive p message s).1 in
    let left = ==-false (s.queue p).enqueued_number 0 some_left in
    elim (Bool-cases ((message_at q1.memory message).type_id == system_call_message_id)) [
      | inl e ↦
          let is_call : (x.type_id == system_call_message_id) ≡ true =
            sym (ap (λ y. y.type_id == system_call_message_id) read) ∙ e in
          let small : x.func_id < 4 = ground arith in
          let found : system_call_array (message_at q1.memory message).func_id
              ≡ some (func_of x.func_id) =
            ap (λ y. system_call_array y.func_id) read
            ∙ system_call_array-func_of x.func_id small in
          rw is_call (record {
            after = rest.after;
            slot = rest.slot;
            result =
                rw (left, e, found, rest.result)
                  (ap (λ y. some (true, (func_of x.func_id, y) ∷ calls, rest.after)) read);
            empty = rest.empty;
          })
      | inr e ↦
          let no_call : (x.type_id == system_call_message_id) ≡ false =
            sym (ap (λ y. y.type_id == system_call_message_id) read) ∙ e in
          rw no_call (record {
            after = rest.after;
            slot = rest.slot;
            result = rw (left, e, rest.result) refl;
            empty = rest.empty;
          })
    ]

-- Where each system call in the queue asks for one of the four functions of `system_call_array`,
-- the kernel thread empties the queue: it takes every message that is in it, in their order, with
-- fuel for one step more than there are messages, and calls for each one that is a system call the
-- function of its number, with its arguments. The structure that it receives in must not overlap
-- the storage, and messages have 32 bytes.
pub serve-calls :
    (p message r k : ℕ) (s : Queues) (ms : List (List ℕ))
    → Holds s p r ms
    → Ready s p message
    → length ms < k
    → AllCallable ms
    → Served s p message k (calls_of ms)
serve-calls p message r zero s ms held ready fuel known = ground arith
serve-calls p message r (suc k) s [] held ready fuel known = serve_none p message r k s held
serve-calls p message r (suc k) s (b ∷ ms) held ready fuel known =
    let q = s.queue p in
    let count = length-messages s p r (b ∷ ms) held in
    let got =
      os_queue_receive-fifo p message r s (b ∷ ms) held ready.queue ready.dest ready.apart in
    let s1 = (os_queue_receive p message s).1 in
    let ready1 = Ready-same s s1 p message (os_queue_receive-SameStorage p message s) ready in
    let read = message_at-bytes s1.memory message q.message_size ready.size ∙ ap message_of got.1 in
    serve_some p message k s (message_of b) (calls_of ms) (omega arith) (
      read,
      known.0,
      serve-calls p message (after q.capacity r) k s1 ms got.2 ready1 (omega arith) known.1,
    )
