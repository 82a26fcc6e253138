-- ===== src/Queue/Fifo.antt =====
-- The representation of a queue, and how the bodies of a send and of a receive change it.
use stm32_os.Common.{
  ℕ, suc, ◌+◌, ◌-◌, ◌*◌, ◌<◌, ◌^◌, ◌≡◌, ◌≢◌, true, List, [], ◌∷◌, ◌++◌, arith, ◌==◌, if◌then◌else◌,
  ap, sym, subst₂, ap₂, ◌∙◌, refl, inl, inr, Bool-cases,
}
use stm32_os.Port.{is_ready, add32, sub32}
use stm32_os.Queue.{Queue, Memory, memcpy, receive_message, send_message}
use stm32_os.Queue.Window.{
  bytes, bytes-memcpy_self, after, advance, window, Apart, slot_end, slot_last,
  window-memcpy_outside, window-memcpy_behind,
}

-- The representation invariant, with the slot `r` of the oldest message. Where the queue is empty
-- `read_ptr` is NULL, and `r` is the slot to be written next.
pub record IsValid (q : Queue) (r : ℕ) : Type 0 where
  pub size_pos : 0 < q.message_size
  pub start_pos : 0 < q.queue_start
  pub fits : q.queue_start + q.message_size * q.capacity < 2 ^ 32
  pub end_at : q.queue_end ≡ q.queue_start + q.message_size * q.capacity
  pub slot : r < q.capacity
  pub room : q.enqueued_number + q.available_storage ≡ q.capacity
  pub small : q.capacity < 2 ^ 32
  pub read_at :
      q.read_ptr ≡ (if q.enqueued_number == 0 then 0 else q.queue_start + r * q.message_size)
  pub write_at :
      q.write_ptr ≡ q.queue_start + advance q.capacity r q.enqueued_number * q.message_size
  pub ready : is_ready q.state ≡ true

-- The messages, oldest first.
abbrev pub messages : Queue → ℕ → Memory → List (List ℕ)
messages q r m = window m q.queue_start q.message_size q.capacity r q.enqueued_number

advance-lt : (cap r n : ℕ) → r < cap → n < cap → advance cap r n < cap
advance-lt cap r n lt le = ground arith

advance-suc :
    (cap r n : ℕ) → r < cap → n < cap → advance cap r (n + 1) ≡ after cap (advance cap r n)
advance-suc cap r n lt le = ground arith

-- The step of `read_ptr` and `write_ptr`: to the slot behind, round the end of the storage.
next_slot :
    (start size cap stop p w : ℕ)
    → 0 < size
    → start + size * cap < 2 ^ 32
    → stop ≡ start + size * cap
    → w < cap
    → p ≡ start + w * size
    → (if add32 p size == stop then start else add32 p size) ≡ start + after cap w * size
next_slot start size cap stop p w pos fits e lt at =
    let sum : add32 p size ≡ start + w * size + size =
      omega (arith, slot_end start size cap w pos lt) in
    rw (sum, e, slot_last start size cap w pos lt)
      (elim (Bool-cases (w + 1 == cap)) [
        | inl last ↦ rw last (omega arith)
        | inr more ↦ rw more (omega arith)
      ])

module _ (q : Queue) (r : ℕ) (m : Memory) (v : IsValid q r) where
  open v use {size_pos, start_pos, fits, end_at, slot, room, small, read_at, write_at, ready}

  abbrev w : ℕ
  w = advance q.capacity r q.enqueued_number

  pub send-IsValid : (src : ℕ) → q.available_storage ≢ 0 → IsValid (send_message src (q, m)).0 r
  unfolding send_message
  send-IsValid src more =
      let more' : q.enqueued_number < q.capacity = omega arith in
      let count : add32 q.enqueued_number 1 ≡ q.enqueued_number + 1 = omega arith in
      record {
        size_pos = size_pos;
        start_pos = start_pos;
        fits = fits;
        end_at = end_at;
        slot = slot;
        room = omega arith;
        small = small;
        read_at = ground arith;
        write_at =
            next_slot q.queue_start q.message_size q.capacity q.queue_end q.write_ptr w size_pos
              fits end_at (advance-lt q.capacity r q.enqueued_number slot more') write_at
            ∙ ap (λ j. q.queue_start + j * q.message_size)
                (sym (advance-suc q.capacity r q.enqueued_number slot more')
                  ∙ ap (advance q.capacity r) (sym count));
        ready = refl;
      }

  pub send-messages :
      (src : ℕ)
      → q.available_storage ≢ 0
      → let (q', m') = send_message src (q, m) in
        messages q' r m' ≡ messages q r m ++ bytes m src q.message_size ∷ []
  unfolding send_message
  send-messages src more =
      let more' : q.enqueued_number < q.capacity = omega arith in
      let count : add32 q.enqueued_number 1 ≡ suc q.enqueued_number = omega arith in
      subst₂
        (λ p c.
          window (memcpy p src q.message_size m) q.queue_start q.message_size q.capacity r c
          ≡ messages q r m ++ bytes m src q.message_size ∷ [])
        (sym write_at) (sym count)
        (window-memcpy_behind q.queue_start q.message_size q.capacity src m r q.enqueued_number w
          slot more' refl)

  -- The slot of the oldest message after a receive.
  abbrev r' : ℕ
  r' = after q.capacity r

  pub receive-IsValid :
      (dest : ℕ) → q.enqueued_number ≢ 0 → IsValid (receive_message dest (q, m)).0 r'
  unfolding receive_message
  receive-IsValid dest some_left =
      let count : sub32 q.enqueued_number 1 ≡ q.enqueued_number - 1 = omega arith in
      let at : q.read_ptr ≡ q.queue_start + r * q.message_size = ground arith in
      let next =
        next_slot q.queue_start q.message_size q.capacity q.queue_end q.read_ptr r size_pos fits
          end_at slot at in
      record {
        size_pos = size_pos;
        start_pos = start_pos;
        fits = fits;
        end_at = end_at;
        slot = ground arith;
        room = omega arith;
        small = small;
        read_at = rw next (ground arith);
        write_at = write_at ∙ ap (λ j. q.queue_start + j * q.message_size) (ground arith);
        ready = refl;
      }

  pub receive-messages :
      (dest : ℕ)
      → q.enqueued_number ≢ 0
      → Apart q.queue_start (q.message_size * q.capacity) dest q.message_size
      → let (q', m') = receive_message dest (q, m) in
        messages q r m ≡ bytes m' dest q.message_size ∷ messages q' r' m'
  unfolding receive_message
  receive-messages dest some_left apart =
      let left : ℕ = sub32 q.enqueued_number 1 in
      let count : q.enqueued_number ≡ suc left = omega arith in
      let at : q.read_ptr ≡ q.queue_start + r * q.message_size = ground arith in
      ap (window m q.queue_start q.message_size q.capacity r) count
      ∙ ap₂ ◌∷◌
          (ap (λ p. bytes m p q.message_size) (sym at)
            ∙ sym (bytes-memcpy_self dest q.read_ptr q.message_size m))
          (sym (
            window-memcpy_outside q.queue_start q.message_size q.capacity dest q.read_ptr
              q.message_size m r' left size_pos (ground arith) apart))
