-- ===== src/Timer.antt =====
-- others/software_timer.c: the list of software timers, each with the ticks that remain after
-- the timer before it. The fields of a TIMER are functions of its address.
pub mod Deltas
pub mod Create
pub mod Expiry
pub mod Cancel
pub mod Tick
pub mod Service
pub mod Tests
use Prim.Native.Nat.{bit_or}
use stm32_os.Common.{
  ℕ, zero, suc, Option, none, some, List, [], ◌∷◌, ◌&&◌, not, ◌==◌, leb, ltb, if◌then◌else◌,
  nonzero, update,
}
use stm32_os.Port.{Kmem, software_tim_id, sram_size, add32, sub32}
use stm32_os.Ring.{Links, insert_before, self_link, unlink}

pub record Timers : Type 0 where
  pub type_id : ℕ → ℕ
  pub name : ℕ → ℕ
  pub remaining_ticks : ℕ → ℕ
  pub timer_timeout_function : ℕ → ℕ
  pub input_para : ℕ → ℕ
  pub links : Links
  pub kmem_own : ℕ → ℕ
  pub current : ℕ  -- os_timer_current_ptr
  pub cr1 : ℕ  -- TIM3->CR1
  pub sr : ℕ  -- TIM3->SR

-- The do-while loop of `os_timer_create` at `timer_next`: where it stops, and the remaining ticks
-- then. `none` means that the fuel ran out.
pub find_slot : ℕ → Links → (head timer timer_next : ℕ) → (ℕ → ℕ) → Option (ℕ × (ℕ → ℕ))
find_slot zero l head timer timer_next rem = none
find_slot (suc k) l head timer timer_next rem =
    let rem' = update rem timer (sub32 (rem timer) (rem timer_next)) in
    let stop = l.next timer_next in
    let more = find_slot k l head timer stop rem' in
    if leb (rem' stop) (rem' timer) && not (stop == head) then more else some (stop, rem')

-- The fields that `os_timer_create` sets before it looks at the list.
pub set_fields : (timer name func para ticks kmem : ℕ) → Timers → Timers
set_fields timer name func para ticks kmem s = record s {
  name = update s.name timer name;
  remaining_ticks = update s.remaining_ticks timer ticks;
  timer_timeout_function = update s.timer_timeout_function timer func;
  type_id = update s.type_id timer software_tim_id;
  input_para = update s.input_para timer para;
  kmem_own = update s.kmem_own timer kmem;
}

-- The list part of `os_timer_create`, for a timer whose fields are set.
pub arm : ℕ → (timer ticks : ℕ) → Timers → Option Timers
unfolding find_slot
arm fuel timer ticks s =
    let rem = s.remaining_ticks in
    let front = record s {
      remaining_ticks = update rem s.current (sub32 (rem s.current) ticks);
      links = insert_before s.current timer s.links;
      current = timer;
    } in
    let behind = λ (p : ℕ × (ℕ → ℕ)). record s {
      remaining_ticks = p.1;
      links = insert_before p.0 timer s.links;
    } in
    if nonzero s.current
    then (if ltb ticks (rem s.current)
        then some front
        else elim (find_slot fuel s.links s.current timer s.current rem) [
          | none ↦ none
          | some p ↦ some (behind p)
        ])
    else some (record s { links = self_link timer s.links; current = timer; cr1 = bit_or s.cr1 1 })

-- The list part of `os_timer_delete`.
pub disarm : ℕ → Timers → Timers
disarm timer s =
    let after = s.links.next timer in
    let l = unlink timer s.links in
    record s {
      remaining_ticks =
          update s.remaining_ticks after
            (add32 (s.remaining_ticks after) (s.remaining_ticks timer));
      links = l;
      current =
          if timer == s.current
          then (if l.next s.current == timer then 0 else l.next s.current)
          else s.current;
    }

-- What `TIM3_IRQHandler` does last: `TIM3->CR1 |= 0x01UL`, if a timer is left.
pub enable : Timers → Timers
enable s = if nonzero s.current then record s { cr1 = bit_or s.cr1 1 } else s

module _ (M : Kmem) where
  open M use {Store, kmem_malloc, start, kmem_free}

  -- The result is NULL (0) or the timer's address. `none` means that the loop ran out of fuel.
  pub os_timer_create : (name func para ticks : ℕ) → Timers × Store → Option (ℕ × Timers × Store)
  os_timer_create name func para ticks (s, h) =
      let (k, h') = kmem_malloc 32 h in
      let timer = start k h' in
      if nonzero ticks
      then (if nonzero k
          then (elim (arm sram_size timer ticks (set_fields timer name func para ticks k s)) [
            | none ↦ none
            | some s' ↦ some (timer, s', h')
          ])
          else some (0, s, h'))
      else some (0, s, h)

  -- It always returns NULL, which is 0.
  pub os_timer_delete : ℕ → Timers × Store → Timers × Store
  os_timer_delete timer (s, h) =
      if nonzero timer then (disarm timer s, kmem_free (s.kmem_own timer) h) else (s, h)

  -- The while loop of `TIM3_IRQHandler`. The list collects the calls of timeout functions, each a
  -- function pointer with its argument.
  pub expire : ℕ → Timers × Store → Option (List (ℕ × ℕ) × Timers × Store)
  expire zero (s, h) = none
  expire (suc k) (s, h) =
      let rest = expire k (os_timer_delete s.current (s, h)) in
      if nonzero s.current && (s.remaining_ticks s.current == 0)
      then (elim rest [
        | none ↦ none
        | some (calls, s', h') ↦
            some ((s.timer_timeout_function s.current, s.input_para s.current) ∷ calls, s', h')
      ])
      else some ([], s, h)

  pub tim3_irq_handler : Timers × Store → Option (List (ℕ × ℕ) × Timers × Store)
  tim3_irq_handler (s, h) =
      let s1 = record s { sr = 0 } in
      let s2 = record s1 {
        remaining_ticks =
            update s1.remaining_ticks s1.current (sub32 (s1.remaining_ticks s1.current) 1);
      } in
      if nonzero s1.current
      then (elim (expire sram_size (s2, h)) [
        | none ↦ none
        | some (calls, s', h') ↦ some (calls, enable s', h')
      ])
      else some ([], s1, h)
