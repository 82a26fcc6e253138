-- ===== src/Queue/Access.antt =====
-- os_queue_send and os_queue_receive on a valid queue: a FIFO of at most `capacity` messages.
use stm32_os.Common.{
  ℕ, zero, suc, ◌*◌, ◌≡◌, ◌≢◌, true, List, [], ◌∷◌, ◌++◌, arith, ◌==◌, ==-false, if◌then◌else◌,
  nonzero, ap, sym, ◌∙◌, refl, subst, update, ==-true, inl, inr, length, Bool-cases,
}
use stm32_os.Port.{is_ready, not_now}
use stm32_os.Queue.{
  Queue, Memory, receive_message, send_message, Queues, os_queue_send, os_queue_receive, put,
}
use stm32_os.Queue.Window.{bytes, after, window, Apart}
use stm32_os.Queue.Fifo.{
  IsValid, messages, send-IsValid, send-messages, receive-IsValid, receive-messages,
}

-- What the functions see of a queue at an address: it is valid and holds these messages.
pub record Holds (s : Queues) (p : ℕ) (r : ℕ) (ms : List (List ℕ)) : Type 0 where
  pub valid : IsValid (s.queue p) r
  pub holds : messages (s.queue p) r s.memory ≡ ms

-- The parts of the theorems below: what a call does where it is let in and where it is not.
length-window : (m : Memory) (start size cap i k : ℕ) → length (window m start size cap i k) ≡ k
length-window m start size cap i zero = refl
length-window m start size cap i (suc k) = ap suc (length-window m start size cap (after cap i) k)

pub length-messages :
    (s : Queues) (p r : ℕ) (ms : List (List ℕ))
    → Holds s p r ms
    → length ms ≡ (s.queue p).enqueued_number
length-messages s p r ms held =
    let q = s.queue p in
    ap length (sym held.holds)
    ∙ length-window s.memory q.queue_start q.message_size q.capacity r q.enqueued_number

update_self : (f : ℕ → Queue) (p : ℕ) (q : Queue) → update f p q p ≡ q
update_self f p q = rw (==-true p p refl) refl

pub Holds-put :
    (s : Queues) (p r : ℕ) (q : Queue) (m : Memory) (ms : List (List ℕ))
    → IsValid q r
    → messages q r m ≡ ms
    → Holds (put p (q, m) s) p r ms
Holds-put s p r q m ms v e =
    let at = sym (update_self s.queue p q) in
    record {
      valid = subst (λ q'. IsValid q' r) at v;
      holds = subst (λ q'. messages q' r m ≡ ms) at e;
    }

send-step :
    (p src : ℕ) (s : Queues)
    → p ≢ 0
    → src ≢ 0
    → is_ready (s.queue p).state ≡ true
    → os_queue_send p src s ≡ (
        if nonzero (s.queue p).available_storage
        then (0, put p (send_message src (s.queue p, s.memory)) s)
        else (not_now, s))
unfolding os_queue_send
send-step p src s np ns ready =
    rw (==-false p 0 np, ==-false src 0 ns, ready)
      (elim (Bool-cases (nonzero (s.queue p).available_storage)) [
        | inl e ↦ rw e refl
        | inr e ↦ rw e refl
      ])

-- `os_queue_send`, with pointers that are not NULL, to a valid queue that is not full succeeds, and
-- the `message_size` bytes at `src` become its newest message; to a full one it says so and changes
-- nothing. The queue stays valid.
pub os_queue_send-fifo :
    (p src r : ℕ) (s : Queues) (ms : List (List ℕ))
    → Holds s p r ms
    → p ≢ 0
    → src ≢ 0
    → if length ms == (s.queue p).capacity
      then os_queue_send p src s ≡ (not_now, s)
      else ((os_queue_send p src s).0 ≡ 0)
        × Holds
            (os_queue_send p src s).1
            p
            r
            (ms ++ bytes s.memory src (s.queue p).message_size ∷ [])
os_queue_send-fifo p src r s ms held np ns =
    let q = s.queue p in
    let v = held.valid in
    let count = length-messages s p r ms held in
    let room = v.room in
    let step = send-step p src s np ns v.ready in
    elim (Bool-cases (length ms == q.capacity)) [
      | inl e ↦
          let none_left : q.available_storage ≡ 0 = ground arith in rw e (step ∙ rw none_left refl)
      | inr e ↦
          let some_left : q.available_storage ≢ 0 = ground arith in
          let taken = step ∙ rw (==-false q.available_storage 0 some_left) refl in
          rw e (
            ap (λ t. t.0) taken,
            subst (λ (t : ℕ × Queues). Holds t.1 p r (ms ++ bytes s.memory src q.message_size ∷ []))
                (sym taken)
                (Holds-put s p r (send_message src (q, s.memory)).0
                  (send_message src (q, s.memory)).1 (ms ++ bytes s.memory src q.message_size ∷ [])
                  (send-IsValid q r s.memory v src some_left)
                  (send-messages q r s.memory v src some_left
                    ∙ ap (λ t. t ++ bytes s.memory src q.message_size ∷ []) held.holds)),
          )
    ]

receive-step :
    (p dest : ℕ) (s : Queues)
    → p ≢ 0
    → dest ≢ 0
    → is_ready (s.queue p).state ≡ true
    → os_queue_receive p dest s ≡ (
        if nonzero (s.queue p).enqueued_number
        then (0, put p (receive_message dest (s.queue p, s.memory)) s)
        else (not_now, s))
unfolding os_queue_receive
receive-step p dest s np nd ready =
    rw (==-false p 0 np, ==-false dest 0 nd, ready)
      (elim (Bool-cases (nonzero (s.queue p).enqueued_number)) [
        | inl e ↦ rw e refl
        | inr e ↦ rw e refl
      ])

abbrev head_message : List (List ℕ) → List ℕ
head_message [] = []
head_message (b ∷ ms) = b

abbrev tail_messages : List (List ℕ) → List (List ℕ)
tail_messages [] = []
tail_messages (b ∷ ms) = ms

-- What a receive from a queue with these messages leaves: an empty one refuses and changes
-- nothing; else the oldest message is at `dest`, and the queue holds the others.
abbrev pub Received : (p dest r : ℕ) → Queues → List (List ℕ) → ℕ × Queues → Type 0
Received p dest r s [] t = t ≡ (not_now, s)
Received p dest r s (b ∷ ms) (code, s') =
    (code ≡ 0)
    × (bytes s'.memory dest (s.queue p).message_size ≡ b)
    × Holds s' p (after (s.queue p).capacity r) ms

-- `os_queue_receive`, with pointers that are not NULL, from a valid queue whose storage does not
-- overlap the destination: an empty
-- queue refuses and nothing changes; else the call succeeds, the oldest message is copied to the
-- destination, and the queue stays valid and holds the others in their order.
pub os_queue_receive-fifo :
    (p dest r : ℕ) (s : Queues) (ms : List (List ℕ))
    → Holds s p r ms
    → p ≢ 0
    → dest ≢ 0
    → (let q = s.queue p in Apart q.queue_start (q.message_size * q.capacity) dest q.message_size)
    → Received p dest r s ms (os_queue_receive p dest s)
os_queue_receive-fifo p dest r s [] held np nd apart =
    let count = length-messages s p r [] held in
    receive-step p dest s np nd (held.valid).ready
    ∙ rw (==-true (s.queue p).enqueued_number 0 (sym count)) refl
os_queue_receive-fifo p dest r s (b ∷ ms) held np nd apart =
    let q = s.queue p in
    let v = held.valid in
    let count = length-messages s p r (b ∷ ms) held in
    let some_left : q.enqueued_number ≢ 0 = omega arith in
    let taken =
      receive-step p dest s np nd v.ready ∙ rw (==-false q.enqueued_number 0 some_left) refl in
    let split = sym held.holds ∙ receive-messages q r s.memory v dest some_left apart in
    subst (Received p dest r s (b ∷ ms)) (sym taken) (
      refl,
      sym (ap head_message split),
      Holds-put s p (after q.capacity r) (receive_message dest (q, s.memory)).0
          (receive_message dest (q, s.memory)).1 ms (receive-IsValid q r s.memory v dest some_left)
          (sym (ap tail_messages split)),
    )
