-- ===== src/Ring.antt =====
-- The circular doubly linked lists that the kernel threads through its structures. A structure's
-- fields are functions of its address (NULL is 0), one function for each field, so a pair of link
-- fields is a record of two functions. `insert_before` and `unlink` are the assignments that the
-- sources repeat for each list.
pub mod Chain
pub mod Insert
pub mod Unlink
use stm32_os.Common.{ℕ, update}

pub record Links : Type 0 where
  pub next : ℕ → ℕ
  pub previous : ℕ → ℕ

-- n->next = h; n->previous = h->previous; h->previous->next = n; h->previous = n;
unfoldable pub insert_before : ℕ → ℕ → Links → Links
insert_before h n l =
    let nx = update l.next n h in
    let pv = update l.previous n (l.previous h) in
    record { next = update nx (pv h) n; previous = update pv h n }

-- n->next = n->previous = n;
unfoldable pub self_link : ℕ → Links → Links
self_link n l = record { next = update l.next n n; previous = update l.previous n n }

-- n->next->previous = n->previous; n->previous->next = n->next;
unfoldable pub unlink : ℕ → Links → Links
unlink n l =
    let pv = update l.previous (l.next n) (l.previous n) in
    record { next = update l.next (pv n) (l.next n); previous = pv }
