-- ===== src/System/Call.antt =====
-- A system call goes through the queue to the kernel thread.
use stm32_os.Common.{
  ℕ, ◌+◌, ◌<◌, ◌≡◌, inl, inr, refl, sym, ap, ◌∙◌, subst, List, [], ◌∷◌, ◌++◌, arith, ◌==◌,
  Bool-cases, if◌then◌else◌, length, length-append, ltb, true, false, Bool,
}
use stm32_os.Port.{OsState, not_now}
use stm32_os.Thread.{Threads, task_switch_to_kernel_thread}
use stm32_os.Queue.{Queues, os_queue_send}
use stm32_os.Queue.Window.{bytes}
use stm32_os.Queue.Access.{Holds, os_queue_send-fifo}
use stm32_os.Queue.Shape.{same, Holds-outside, os_queue_send-SameStorage}
use stm32_os.System.{
  SystemCall, Message, put_message, fields, call_message, gives_up, message_at, system_call_send,
  system_call_use, system_call_message_id,
}
use stm32_os.System.Words.{Small, message_of, message_at-bytes, message_at-put_message}
use stm32_os.System.Serve.{
  Calls, func_of, Callable, AllCallable, Ready, Ready-same, Served, add_call, calls_of, serve-calls,
}

add_call-append :
    (c : Message) (calls : Calls) (x : SystemCall × Message)
    → add_call c (calls ++ x ∷ []) ≡ add_call c calls ++ x ∷ []
add_call-append c calls x = elim (Bool-cases (c.type_id == system_call_message_id)) [
  | inl e ↦ rw e refl
  | inr e ↦ rw e refl
]

calls_of-append :
    (ms : List (List ℕ)) (b : List ℕ) (x : SystemCall × Message)
    → add_call (message_of b) [] ≡ x ∷ []
    → calls_of (ms ++ b ∷ []) ≡ calls_of ms ++ x ∷ []
calls_of-append [] b x last = last
calls_of-append (c ∷ ms) b x last =
    ap (add_call (message_of c)) (calls_of-append ms b x last)
    ∙ add_call-append (message_of c) (calls_of ms) x

AllCallable-append :
    (ms : List (List ℕ)) (b : List ℕ)
    → AllCallable ms
    → Callable (message_of b)
    → AllCallable (ms ++ b ∷ [])
AllCallable-append [] b known last = (last, tt)
AllCallable-append (c ∷ ms) b known last = (known.0, AllCallable-append ms b known.1 last)

-- The queue after the message is written on the stack of the caller.
Holds-written :
    (q : Queues) (p message r : ℕ) (ms : List (List ℕ)) (x : Message)
    → Holds q p r ms
    → Ready q p message
    → Small (fields x)
    → Holds (record q { memory = put_message message x q.memory }) p r ms
Holds-written q p message r ms x held ready small =
    Holds-outside q p r ms (put_message message x q.memory) held (λ a ge lt.
      let size = ready.size in
      let apart = ready.apart in
      (message_at-put_message message x q.memory small).1 a (ground arith))

-- The calls that the kernel thread will serve: a call for a full queue is lost.
abbrev pub pending : (full : Bool) → Calls → Message → Calls
pending full calls x = if full then calls else calls ++ (func_of x.func_id, x) ∷ []

-- The message is sent from a queue that it was written beside, and served.
send-Served :
    (p message dest r k : ℕ) (q : Queues) (ms : List (List ℕ)) (x : Message)
    → Holds q p r ms
    → Ready q p message
    → Ready q p dest
    → message_at q.memory message ≡ x
    → x.type_id ≡ system_call_message_id
    → length ms + 1 < k
    → AllCallable ms
    → x.func_id < 4
    → Served
        (os_queue_send p message q).1
        p
        dest
        k
        (pending (length ms == (q.queue p).capacity) (calls_of ms) x)
send-Served p message dest r k q ms x held from to is_x is_call fuel known valid =
    let sent = os_queue_send-fifo p message r q ms held from.queue from.dest in
    let q' = (os_queue_send p message q).1 in
    let to' = Ready-same q q' p dest (os_queue_send-SameStorage p message q) to in
    let b = bytes q.memory message (q.queue p).message_size in
    let read : message_of b ≡ x =
      sym (message_at-bytes q.memory message (q.queue p).message_size from.size) ∙ is_x in
    let last : add_call (message_of b) [] ≡ (func_of x.func_id, x) ∷ [] =
      ap (λ y. add_call y []) read ∙ rw is_call refl in
    let count = length-append ms (b ∷ []) in
    let ends : Bool → Type 0 = λ full.
      if full
      then os_queue_send p message q ≡ (not_now, q)
      else ((os_queue_send p message q).0 ≡ 0) × Holds q' p r (ms ++ b ∷ []) in
    elim (Bool-cases (length ms == (q.queue p).capacity)) [
      | inl e ↦
          let kept : os_queue_send p message q ≡ (not_now, q) = subst ends e sent in
          rw e (
            subst (λ (t : ℕ × Queues). Served t.1 p dest k (calls_of ms)) (sym kept)
              (serve-calls p dest r k q ms held to (omega arith) known))
      | inr e ↦
          let grown : ends false = subst ends e sent in
          rw e (
            subst (Served q' p dest k) (calls_of-append ms b (func_of x.func_id, x) last) (
              serve-calls p dest r k q' (ms ++ b ∷ []) grown.1 to' (omega arith)
                (AllCallable-append ms b known (subst Callable (sym read) (inr valid)))))
    ]

-- What a call leaves: the kernel thread has the processor, and will serve the calls that were
-- waiting, then this one.
pub record Called (s : Threads × Queues) (p dest k code : ℕ) (calls : Calls)
    (t : ℕ × Threads × Queues) : Type 0 where
  pub returns : t.0 ≡ code
  pub switched : t.1 ≡ task_switch_to_kernel_thread s.0
  pub served : Served t.2 p dest k calls

-- A system call for one of the four functions of `system_call_array`, with 32-bit arguments,
-- through a queue of messages of 32 bytes whose storage is apart from the structures that are sent
-- and received, and in which only calls for these functions wait: the kernel thread runs next; and
-- with fuel for two steps more than there are messages it empties the queue, where it makes the
-- calls that were waiting and then calls the function of this number with these arguments. Where
-- the queue is full the call is lost, and the caller is told nothing of it: what it gets depends on
-- the tests of os_state alone.
pub system_call_use-served :
    (p message dest r k tests : ℕ) (os_state : ℕ → OsState) (func_id para0 para1 para2 para3 : ℕ)
    (t : Threads) (q : Queues) (ms : List (List ℕ))
    → (let x = call_message t.current_ptr func_id para0 para1 para2 para3 in
        Holds q p r ms
        → Ready q p message
        → Ready q p dest
        → Small (fields x)
        → func_id < 4
        → length ms + 1 < k
        → AllCallable ms
        → Called
            (t, q)
            p
            dest
            k
            (if gives_up tests 0 os_state then not_now else 0)
            (pending (length ms == (q.queue p).capacity) (calls_of ms) x)
            (system_call_use p message tests os_state func_id para0 para1 para2 para3 (t, q)))
unfolding system_call_use system_call_send
system_call_use-served p message dest r k tests os_state func_id para0 para1 para2 para3 t q ms held
      from to small valid fuel known =
    let x = call_message t.current_ptr func_id para0 para1 para2 para3 in
    let q1 : Queues = record q { memory = put_message message x q.memory } in
    let in_array : ltb func_id 512 ≡ true = ground arith in
    rw in_array (record {
      returns = refl;
      switched = refl;
      served =
          send-Served p message dest r k q1 ms x (Holds-written q p message r ms x held from small)
            (Ready-same q q1 p message (same (q.queue p)) from)
            (Ready-same q q1 p dest (same (q.queue p)) to)
            ((message_at-put_message message x q.memory small).0) refl fuel known valid;
    })
