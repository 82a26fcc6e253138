-- ===== src/Queue/Shape.antt =====
-- What os_queue_send and os_queue_receive leave as it is: the storage of a queue, and its messages
-- where memory outside the storage is written.
use stm32_os.Common.{
  ℕ, zero, suc, ◌+◌, ◌*◌, ◌≤◌, ◌<◌, ◌≡◌, refl, sym, ap, ap₂, ◌∙◌, List, ◌∷◌, arith, ==-true,
  Bool-cases, inl, inr, nonzero, update, ◌&&◌,
}
use stm32_os.Port.{is_ready}
use stm32_os.Queue.{
  Queue, Memory, Queues, os_queue_receive, os_queue_send, receive_message, send_message, put,
}
use stm32_os.Queue.Window.{bytes, after, window, slot_end}
use stm32_os.Queue.Access.{Holds}

-- The storage of a queue.
pub record SameStorage (q q' : Queue) : Type 0 where
  pub start : q'.queue_start ≡ q.queue_start
  pub size : q'.message_size ≡ q.message_size
  pub cap : q'.capacity ≡ q.capacity

pub same : (q : Queue) → SameStorage q q
same q = record { start = refl; size = refl; cap = refl }

update_here : (f : ℕ → Queue) (p : ℕ) (q : Queue) → update f p q p ≡ q
update_here f p q = rw (==-true p p refl) refl

put-SameStorage :
    (p : ℕ) (s : Queues) (q : Queue) (m : Memory)
    → SameStorage (s.queue p) q
    → SameStorage (s.queue p) ((put p (q, m) s).queue p)
put-SameStorage p s q m eq = rw (update_here s.queue p q) eq

receive_message-SameStorage :
    (dest : ℕ) (q : Queue) (m : Memory) → SameStorage q (receive_message dest (q, m)).0
unfolding receive_message
receive_message-SameStorage dest q m = record { start = refl; size = refl; cap = refl }

pub os_queue_receive-SameStorage :
    (p dest : ℕ) (s : Queues) → SameStorage (s.queue p) ((os_queue_receive p dest s).1.queue p)
unfolding os_queue_receive
os_queue_receive-SameStorage p dest s =
    let q = s.queue p in
    elim (Bool-cases (nonzero p && nonzero dest)) [
      | inr e ↦ rw e (same q)
      | inl e ↦ elim (Bool-cases (nonzero q.enqueued_number && is_ready q.state)) [
        | inr e' ↦ rw (e, e') (same q)
        | inl e' ↦
            let t = receive_message dest (q, s.memory) in
            rw (e, e') (put-SameStorage p s t.0 t.1 (receive_message-SameStorage dest q s.memory))
      ]
    ]

send_message-SameStorage :
    (src : ℕ) (q : Queue) (m : Memory) → SameStorage q (send_message src (q, m)).0
unfolding send_message
send_message-SameStorage src q m = record { start = refl; size = refl; cap = refl }

pub os_queue_send-SameStorage :
    (p src : ℕ) (s : Queues) → SameStorage (s.queue p) ((os_queue_send p src s).1.queue p)
unfolding os_queue_send
os_queue_send-SameStorage p src s =
    let q = s.queue p in
    elim (Bool-cases (nonzero p && nonzero src)) [
      | inr e ↦ rw e (same q)
      | inl e ↦ elim (Bool-cases (nonzero q.available_storage && is_ready q.state)) [
        | inr e' ↦ rw (e, e') (same q)
        | inl e' ↦
            let t = send_message src (q, s.memory) in
            rw (e, e') (put-SameStorage p s t.0 t.1 (send_message-SameStorage src q s.memory))
      ]
    ]

pub bytes_ext :
    (f g : Memory) (p q n : ℕ)
    → ((j : ℕ) → j < n → f (p + j) ≡ g (q + j))
    → bytes f p n ≡ bytes g q n
bytes_ext f g p q zero agree = refl
bytes_ext f g p q (suc n) agree =
    let e : p + 0 ≡ p = omega arith in
    let e' : q + 0 ≡ q = omega arith in
    ap₂ ◌∷◌ (ap f (sym e) ∙ agree 0 (omega arith) ∙ ap g e') (
      bytes_ext f g (p + 1) (q + 1) n (λ j lt.
        let a : p + 1 + j ≡ p + (j + 1) = omega arith in
        let b : q + 1 + j ≡ q + (j + 1) = omega arith in
        ap f a ∙ agree (j + 1) (omega arith) ∙ ap g (sym b)))

-- The messages are those of the storage.
window_ext :
    (m m' : Memory) (start size cap i k : ℕ)
    → 0 < size
    → i < cap
    → ((a : ℕ) → start ≤ a → a < start + size * cap → m' a ≡ m a)
    → window m' start size cap i k ≡ window m start size cap i k
window_ext m m' start size cap i zero pos lt agree = refl
window_ext m m' start size cap i (suc k) pos lt agree =
    let fits = slot_end start size cap i pos lt in
    ap₂ ◌∷◌
      (bytes_ext m' m (start + i * size) (start + i * size) size
        (λ j small. agree (start + i * size + j) (omega arith) (omega arith)))
      (window_ext m m' start size cap (after cap i) k pos (ground arith) agree)

pub Holds-outside :
    (s : Queues) (p r : ℕ) (ms : List (List ℕ)) (m' : Memory)
    → Holds s p r ms
    → (let q = s.queue p in
        (a : ℕ)
        → q.queue_start ≤ a
        → a < q.queue_start + q.message_size * q.capacity
        → m' a ≡ s.memory a)
    → Holds (record s { memory = m' }) p r ms
Holds-outside s p r ms m' held agree =
    let q = s.queue p in
    let v = held.valid in
    record {
      valid = v;
      holds =
          window_ext s.memory m' q.queue_start q.message_size q.capacity r q.enqueued_number
            v.size_pos v.slot agree
          ∙ held.holds;
    }
