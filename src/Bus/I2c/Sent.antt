-- ===== src/Bus/I2c/Sent.antt =====
-- What a write puts on the two-wire bus.
use stm32_os.Common.{
  ℕ, zero, suc, ◌+◌, ◌-◌, ◌<◌, ◌≡◌, Bool, true, false, List, [], ◌∷◌, ◌++◌, if◌then◌else◌, leb,
  nonzero, arith, refl, sym, ◌∙◌, ap, ap₂, ==-true,
}
use mathlib.Core.List.{append_assoc, append-nil}
use stm32_os.Queue.{Memory}
use stm32_os.Device.{Request}
use stm32_os.Peripheral.{Peripheral, DriverState, is_busying}
use stm32_os.Bus.{Event, Bus, put, wait, flag, delay}
use stm32_os.Bus.I2c.{
  device_i2c_id, I2c, Step, ◌then_do◌, await, send, set_start, address, send_bytes, i2c_write,
  i2c_request, i2c_driver,
}

-- Whenever the driver waits for the flag, for at most `times` reads, it finds it set.
abbrev pub Prompt : (ℕ → ℕ) → (times unit : ℕ) → Type 0
Prompt status times unit = (n : ℕ) → flag status unit (wait status times unit n) ≡ true

-- A device that answers: to START, to its address, and to each byte.
pub record Answers (status : ℕ → ℕ) : Type 0 where
  pub started : Prompt status 0x10000 0x01
  pub addressed : Prompt status 0x10000 0x02
  pub moved : Prompt status 0x10000 0x04

-- A step that succeeds with some events and leaves the memory.
pub record Does (f : Step) (es : List Event) (s : Bus) : Type 0 where
  pub after : Bus
  pub result : f s ≡ (true, after)
  pub events : after.events ≡ s.events ++ es
  pub memory : after.memory ≡ s.memory

Does-then_do :
    (f g : Step) (es fs : List Event) (s : Bus) (first : Does f es s)
    → Does g fs first.after
    → Does (f then_do g) (es ++ fs) s
Does-then_do f g es fs s first second = record {
  after = second.after;
  result = rw (first.result, second.result) refl;
  events =
      second.events ∙ ap (λ (l : List Event). l ++ fs) (first.events) ∙ append_assoc s.events es fs;
  memory = second.memory ∙ first.memory;
}

send-Does : (status dr : ℕ → ℕ) (n : ℕ) (s : Bus) → Does (send status dr n) (Event.byte n ∷ []) s
send-Does status dr n s = record {
  after = put (Event.byte n) s;
  result = refl;
  events = refl;
  memory = refl;
}

set_start-Does : (status dr : ℕ → ℕ) (s : Bus) → Does (set_start status dr) (Event.start ∷ []) s
set_start-Does status dr s = record {
  after = put Event.start s;
  result = refl;
  events = refl;
  memory = refl;
}

two : (n : ℕ) → n + 1 + 1 ≡ n + 2
two n = omega arith

-- The bytes of the memory from `at` on.
abbrev pub sent : Memory → (at count : ℕ) → List Event
sent m at zero = []
sent m at (suc count) = Event.byte (m at) ∷ sent m (at + 1) count

await-Does :
    (status dr : ℕ → ℕ) (unit : ℕ) (clears : Bool) (s : Bus)
    → Prompt status 0x10000 unit
    → Does (await status dr unit clears) [] s
unfolding delay
await-Does status dr unit clears s answers =
    let n : ℕ = wait status 0x10000 unit s.reads in
    let s1 : Bus = record s { reads = n + 1 } in
    record {
      after = record s { reads = if clears then n + 2 else n + 1 };
      result =
          elim clears
            as (λ c.
              await status dr unit c s ≡ (true, record s { reads = if c then n + 2 else n + 1 })) [
                | true ↦ rw (answers s.reads) (λ i. (true, record s { reads = two n i }))
                | false ↦ rw (answers s.reads) refl
              ];
      events = sym (append-nil s.events);
      memory = refl;
    }

address-Does :
    (status dr : ℕ → ℕ) (b : ℕ) (s : Bus)
    → Answers status
    → Does (address status dr b) (Event.start ∷ Event.byte (s.memory b) ∷ []) s
unfolding address
address-Does status dr b s answers =
    let d1 = set_start-Does status dr s in
    let d2 = await-Does status dr 0x01 true (d1.after) (answers.started) in
    let d3 = send-Does status dr (s.memory b) (d2.after) in
    let d4 = await-Does status dr 0x02 false (d3.after) (answers.addressed) in
    let wait_start : Step = await status dr 0x01 true in
    let wait_address : Step = await status dr 0x02 false in
    let send_address : Step = send status dr (s.memory b) in
    let addressed =
      Does-then_do send_address wait_address (Event.byte (s.memory b) ∷ []) [] (d2.after) d3 d4 in
    let waited =
      Does-then_do wait_start (send_address then_do wait_address) [] (Event.byte (s.memory b) ∷ [])
        (d1.after) d2 addressed in
    let all =
      Does-then_do (set_start status dr) (wait_start then_do send_address then_do wait_address)
        (Event.start ∷ []) (Event.byte (s.memory b) ∷ []) s d1 waited in
    record { after = all.after; result = all.result; events = all.events; memory = all.memory }

send_bytes-Does :
    (status dr : ℕ → ℕ) (count at : ℕ) (s : Bus)
    → Answers status
    → Does (send_bytes status dr count at) (sent s.memory at count) s
unfolding send_bytes
send_bytes-Does status dr zero at s answers = record {
  after = s;
  result = refl;
  events = sym (append-nil s.events);
  memory = refl;
}
send_bytes-Does status dr (suc count) at s answers =
    let d1 = send-Does status dr (s.memory at) s in
    let d2 = await-Does status dr 0x04 true (d1.after) (answers.moved) in
    let taken =
      Does-then_do (send status dr (s.memory at)) (await status dr 0x04 true)
        (Event.byte (s.memory at) ∷ []) [] s d1 d2 in
    let rest = send_bytes-Does status dr count (at + 1) (taken.after) answers in
    record {
      after = rest.after;
      result =
          ap
            (λ (r : Bool × Bus).
              if r.0 then send_bytes status dr count (at + 1) r.1 else (false, r.1))
            (taken.result)
          ∙ rest.result;
      events =
          rest.events
          ∙ ap₂ (λ (l : List Event) (m : Memory). l ++ sent m (at + 1) count) (taken.events)
              (taken.memory)
          ∙ append_assoc s.events (Event.byte (s.memory at) ∷ []) (sent s.memory (at + 1) count);
      memory = rest.memory ∙ taken.memory;
    }

-- A write that succeeds: the events that it adds to those of the bus, and the notification.
pub record Written (status dr : ℕ → ℕ) (dma_driver : Peripheral × Bus → Peripheral × Bus)
    (address_of_dr : ℕ) (p : Peripheral) (s : I2c) : Type 0 where
  pub after : I2c
  pub result :
      i2c_driver status dr dma_driver address_of_dr (p, s)
      ≡ (record p { peripheral_status = DriverState.success }, after)
  pub events :
      after.bus.events
      ≡ s.bus.events
        ++ (Event.start ∷ sent s.bus.memory p.peripheral_buffer p.peripheral_operate_bytes)
        ++ Event.stop ∷ []
  pub memory : after.bus.memory ≡ s.bus.memory
  pub notified : after.notified ≡ (
      if nonzero p.peripheral_complete_notify
      then p.peripheral_complete_notify ∷ s.notified
      else s.notified)

sent-first : (m : Memory) (b n : ℕ) → 2 < n → sent m b n ≡ Event.byte (m b) ∷ sent m (b + 1) (n - 1)
sent-first m b zero long = ground arith
sent-first m b (suc n) long =
    let e : suc n - 1 ≡ n = omega arith in
    ap (λ (k : ℕ). Event.byte (m b) ∷ sent m (b + 1) k) (sym e)

-- A write of more than two bytes to a device that answers, for a peripheral that is not BUSYING:
-- START, the bytes of the buffer in their order and STOP are put on the bus, and no other byte; the
-- status is SUCCESS, and the notification for that is called.
pub i2c_driver-Written :
    (status dr : ℕ → ℕ) (dma_driver : Peripheral × Bus → Peripheral × Bus) (address_of_dr : ℕ)
    (p : Peripheral) (s : I2c)
    → Answers status
    → p.peripheral_id ≡ device_i2c_id
    → is_busying p.peripheral_status ≡ false
    → p.peripheral_request ≡ Request.write
    → 2 < p.peripheral_operate_bytes
    → Written status dr dma_driver address_of_dr p s
unfolding i2c_driver i2c_request i2c_write
i2c_driver-Written status dr dma_driver address_of_dr p s answers id free request long =
    let b : ℕ = p.peripheral_buffer in
    let n : ℕ = p.peripheral_operate_bytes in
    let first = address-Does status dr b s.bus answers in
    let rest = send_bytes-Does status dr (n - 1) (b + 1) (first.after) answers in
    let more : leb n 2 ≡ false = ground arith in
    let before : List Event = s.bus.events in
    let all : rest.after.events ≡ before ++ Event.start ∷ sent s.bus.memory b n =
      rest.events
      ∙ ap₂ (λ (l : List Event) (m : Memory). l ++ sent m (b + 1) (n - 1)) (first.events)
          (first.memory)
      ∙ append_assoc before (Event.start ∷ Event.byte (s.bus.memory b) ∷ [])
          (sent s.bus.memory (b + 1) (n - 1))
      ∙ ap (λ (l : List Event). before ++ Event.start ∷ l)
          (sym (sent-first s.bus.memory b n long)) in
    let stopped : Bus = put Event.stop (rest.after) in
    let calls : List ℕ =
      if nonzero p.peripheral_complete_notify
      then p.peripheral_complete_notify ∷ s.notified
      else s.notified in
    record {
      after = record { bus = stopped; notified = calls };
      result = simp (
        request,
        more,
        first.result,
        rest.result,
        free,
        ==-true p.peripheral_id device_i2c_id id,
      );
      events = ap (λ (l : List Event). l ++ Event.stop ∷ []) all;
      memory = rest.memory ∙ first.memory;
      notified = refl;
    }
