-- ===== src/Queue.antt =====
-- others/queue.c: message queues of a fixed capacity, and the list of all queues. The fields of
-- the queue at hand are a record; its place in the list of queues is in `Queues`.
pub mod Window
pub mod Fifo
pub mod Access
pub mod Lifetime
pub mod Shape
mod Tests
use stm32_os.Common.{
  ℕ, zero, suc, ◌+◌, ◌-◌, ◌*◌, ◌%◌, ◌^◌, Bool, true, false, List, [], ◌∷◌, ◌&&◌, not, ◌==◌, leb,
  ltb, if◌then◌else◌, nonzero, update,
}
use stm32_os.Port.{OsState, Kmem, is_ready, queue_id, not_now, bad_argument, add32, sub32}
use stm32_os.Ring.{Links, insert_before, self_link, unlink}

pub record Queue : Type 0 where
  pub type_id : ℕ
  pub name : ℕ
  pub state : OsState
  pub message_size : ℕ
  pub capacity : ℕ
  pub enqueued_number : ℕ
  pub available_storage : ℕ
  pub queue_start : ℕ
  pub queue_end : ℕ
  pub read_ptr : ℕ
  pub write_ptr : ℕ

-- The bytes of the memory, by their addresses.
abbrev pub Memory : Type 0
Memory = ℕ → ℕ

-- memcpy(dest, src, n)
abbrev pub memcpy : (dest src n : ℕ) → Memory → Memory
memcpy dest src n m a = if leb dest a && ltb a (dest + n) then m (src + (a - dest)) else m a

-- memset(dest, 0, n)
abbrev pub memzero : (dest n : ℕ) → Memory → Memory
memzero dest n m a = if leb dest a && ltb a (dest + n) then 0 else m a

-- The body of `os_queue_receive`, where the queue has a message and is READY. The state is
-- BUSYING in between, and READY at the end.
pub receive_message : (dest : ℕ) → Queue × Memory → Queue × Memory
receive_message dest (q, m) =
    let left = sub32 q.enqueued_number 1 in
    let next = add32 q.read_ptr q.message_size in
    (
      record q {
        state = OsState.ready;
        enqueued_number = left;
        available_storage = add32 q.available_storage 1;
        read_ptr =
            if nonzero left then (if next == q.queue_end then q.queue_start else next) else 0;
      },
      memcpy dest q.read_ptr q.message_size m,
    )

-- The body of `os_queue_send`, where the queue has room and is READY.
pub send_message : (src : ℕ) → Queue × Memory → Queue × Memory
send_message src (q, m) =
    let next = add32 q.write_ptr q.message_size in
    (
      record q {
        state = OsState.ready;
        read_ptr = if q.enqueued_number == 0 then q.write_ptr else q.read_ptr;
        enqueued_number = add32 q.enqueued_number 1;
        available_storage = sub32 q.available_storage 1;
        write_ptr = if next == q.queue_end then q.queue_start else next;
      },
      memcpy q.write_ptr src q.message_size m,
    )

-- All queues: the structure at each address, the list of queues, and the memory.
pub record Queues : Type 0 where
  pub queue : ℕ → Queue
  pub create : Links  -- queue_create_next, queue_create_previous
  pub create_ptr : ℕ  -- os_queue_create_ptr
  pub kmem_own : ℕ → ℕ
  pub memory : Memory

abbrev pub put : ℕ → Queue × Memory → Queues → Queues
put p (q, m) s = record s { queue = update s.queue p q; memory = m }

pub os_queue_receive : (queue_ptr dest_ptr : ℕ) → Queues → ℕ × Queues
os_queue_receive queue_ptr dest_ptr s =
    let q = s.queue queue_ptr in
    if nonzero queue_ptr && nonzero dest_ptr
    then (if nonzero q.enqueued_number && is_ready q.state
        then (0, put queue_ptr (receive_message dest_ptr (q, s.memory)) s)
        else (not_now, s))
    else (bad_argument, s)

pub os_queue_send : (queue_ptr src_ptr : ℕ) → Queues → ℕ × Queues
os_queue_send queue_ptr src_ptr s =
    let q = s.queue queue_ptr in
    if nonzero queue_ptr && nonzero src_ptr
    then (if nonzero q.available_storage && is_ready q.state
        then (0, put queue_ptr (send_message src_ptr (q, s.memory)) s)
        else (not_now, s))
    else (bad_argument, s)

-- The queue that `os_queue_create` makes, and its storage, which is set to 0.
pub new_queue : (name message_size queue_start queue_size : ℕ) → Queue
new_queue name message_size queue_start queue_size = record {
  type_id = queue_id;
  name = name;
  state = OsState.ready;
  message_size = message_size;
  capacity = queue_size;
  enqueued_number = 0;
  available_storage = queue_size;
  queue_start = queue_start;
  queue_end = add32 queue_start (message_size * queue_size % 2 ^ 32);
  read_ptr = 0;
  write_ptr = queue_start;
}

pub os_queue_create : (queue_ptr name message_size queue_start queue_size : ℕ) → Queues → ℕ × Queues
os_queue_create queue_ptr name message_size queue_start queue_size s =
    let q = new_queue name message_size queue_start queue_size in
    let m = memzero queue_start (message_size * queue_size % 2 ^ 32) s.memory in
    let s1 = put queue_ptr (q, m) s in
    let head = s1.create_ptr in
    let s2 =
      if nonzero head
      then record s1 { create = insert_before head queue_ptr s1.create }
      else record s1 { create = self_link queue_ptr s1.create; create_ptr = queue_ptr } in
    if nonzero queue_ptr && nonzero message_size && nonzero queue_start && nonzero queue_size
    then (0, s2)
    else (bad_argument, s)

-- `queue_cleanup`
pub queue_cleanup : ℕ → Queues → ℕ × Queues
queue_cleanup queue_ptr s =
    let q = s.queue queue_ptr in
    if nonzero queue_ptr && is_ready q.state
    then (
      0,
      put queue_ptr
          (
            record q {
              state = OsState.ready;
              available_storage = q.capacity;
              enqueued_number = 0;
              write_ptr = q.queue_start;
              read_ptr = 0;
            },
            s.memory,
          )
          s,
    )
    else (bad_argument, s)

module _ (M : Kmem) where
  open M use {Store, kmem_malloc, start, kmem_free}

  -- A QUEUE is 56 bytes: 14 words.
  pub queue_create : (name message_size queue_size : ℕ) → Queues × Store → ℕ × Queues × Store
  queue_create name message_size queue_size (s, h) =
      let (k, h') = kmem_malloc (add32 56 (message_size * queue_size % 2 ^ 32)) h in
      let p = start k h' in
      let s1 = (os_queue_create p name message_size (add32 p 56) queue_size s).1 in
      if nonzero k then (p, record s1 { kmem_own = update s1.kmem_own p k }, h') else (0, s, h')

  pub os_queue_delete : ℕ → Queues × Store → ℕ × Queues × Store
  os_queue_delete queue_ptr (s, h) =
      let after = s.create.next queue_ptr in
      let freed = kmem_free (s.kmem_own queue_ptr) h in
      let q = s.queue queue_ptr in
      let s1 = record s {
        create_ptr = if s.create_ptr == queue_ptr then after else s.create_ptr;
        create = unlink queue_ptr s.create;
        queue = update s.queue queue_ptr (record q { state = OsState.deleted });
      } in
      if nonzero queue_ptr
      then (if (s.create_ptr == queue_ptr) && (queue_ptr == after)
          then (0, record s { create_ptr = 0 }, freed)
          else (0, s1, freed))
      else (bad_argument, s, h)
