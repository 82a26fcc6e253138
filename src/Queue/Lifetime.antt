-- ===== src/Queue/Lifetime.antt =====
-- os_queue_create, queue_cleanup and os_queue_delete: what a queue holds at first, and the list of
-- all queues.
use stm32_os.Common.{
  ℕ, ◌+◌, ◌*◌, ◌%◌, ◌<◌, ◌^◌, ◌≡◌, ◌≢◌, true, false, List, [], ◌∷◌, ◌++◌, arith, ◌==◌, ==-false,
  if◌then◌else◌, nonzero, sym, refl, subst, ==-true, inl, inr, Bool-cases, has, erase,
}
use stm32_os.Port.{Kmem}
use stm32_os.Ring.{Links, unlink, insert_before, self_link}
use stm32_os.Ring.Chain.{IsRing, IsRing-ne_null}
use stm32_os.Ring.Insert.{insert_before-append, self_link-IsRing}
use stm32_os.Ring.Unlink.{unlink-IsRing}
use stm32_os.Queue.{
  Queues, put, memzero, new_queue, os_queue_create, queue_cleanup, os_queue_delete,
}
use stm32_os.Queue.Fifo.{IsValid}
use stm32_os.Queue.Access.{Holds, Holds-put}

new_queue-IsValid :
    (name size start cap : ℕ)
    → 0 < size
    → 0 < start
    → 0 < cap
    → cap < 2 ^ 32
    → start + size * cap < 2 ^ 32
    → IsValid (new_queue name size start cap) 0
unfolding new_queue
new_queue-IsValid name size start cap ps pt pc small fits = record {
  size_pos = ps;
  start_pos = pt;
  fits = fits;
  end_at = omega arith;
  slot = pc;
  room = omega arith;
  small = small;
  read_at = refl;
  write_at = ground arith;
  ready = refl;
}

-- The queues after a creation that was let in.
abbrev created : (p name size start cap : ℕ) → Queues → Queues
created p name size start cap s =
    let s1 =
      put p (new_queue name size start cap, memzero start (size * cap % 2 ^ 32) s.memory) s in
    if nonzero s.create_ptr
    then record s1 { create = insert_before s.create_ptr p s.create }
    else record s1 { create = self_link p s.create; create_ptr = p }

create-step :
    (p name size start cap : ℕ) (s : Queues)
    → p ≢ 0
    → size ≢ 0
    → start ≢ 0
    → cap ≢ 0
    → os_queue_create p name size start cap s ≡ (0, created p name size start cap s)
unfolding os_queue_create
create-step p name size start cap s np ns nt nc =
    rw (==-false p 0 np, ==-false size 0 ns, ==-false start 0 nt, ==-false cap 0 nc) refl

created-Holds :
    (p name size start cap : ℕ) (s : Queues)
    → IsValid (new_queue name size start cap) 0
    → Holds (created p name size start cap s) p 0 []
unfolding new_queue
created-Holds p name size start cap s v =
    let m = memzero start (size * cap % 2 ^ 32) s.memory in
    let held = Holds-put s p 0 (new_queue name size start cap) m [] v refl in
    elim (Bool-cases (nonzero s.create_ptr)) [
      | inl e ↦ rw e (record { valid = held.valid; holds = held.holds })
      | inr e ↦ rw e (record { valid = held.valid; holds = held.holds })
    ]

created-append :
    (p name size start cap : ℕ) (s : Queues) (xs : List ℕ)
    → IsRing s.create s.create_ptr xs
    → has p xs ≡ false
    → p ≢ 0
    → let s' = created p name size start cap s in IsRing s'.create s'.create_ptr (xs ++ p ∷ [])
created-append p name size start cap s [] ring new np =
    rw (==-true s.create_ptr 0 ring) (self_link-IsRing s.create p np)
created-append p name size start cap s (x ∷ xs) ring new np =
    let ne : s.create_ptr ≢ 0 =
      IsRing-ne_null s.create s.create_ptr s.create_ptr (x ∷ xs) ring (ground arith) in
    rw (==-false s.create_ptr 0 ne) (
      subst (λ h. IsRing (insert_before h p s.create) h ((x ∷ xs) ++ p ∷ [])) (sym ring.0)
        (insert_before-append s.create x xs p (refl, ring.1, ring.2, ring.3) new np))

-- `os_queue_create` of a queue that is not NULL and not in the list of queues, with sizes that are
-- not 0 and a storage that lies in the address space, succeeds: the queue is valid, holds no
-- message, and stands at the end of the list.
pub os_queue_create-append :
    (p name size start cap : ℕ) (s : Queues) (xs : List ℕ)
    → IsRing s.create s.create_ptr xs
    → has p xs ≡ false
    → p ≢ 0
    → 0 < size
    → 0 < start
    → 0 < cap
    → start + size * cap < 2 ^ 32
    → let (code, s') = os_queue_create p name size start cap s in
      (code ≡ 0) × Holds s' p 0 [] × IsRing s'.create s'.create_ptr (xs ++ p ∷ [])
os_queue_create-append p name size start cap s xs ring new np ps pt pc fits =
    let step =
      create-step p name size start cap s np (ground arith) (ground arith) (ground arith) in
    let small : cap < 2 ^ 32 = grind arith in
    subst
      (λ (t : ℕ × Queues).
        (t.0 ≡ 0) × Holds t.1 p 0 [] × IsRing (t.1).create (t.1).create_ptr (xs ++ p ∷ []))
      (sym step)
      (
        refl,
        created-Holds p name size start cap s
            (new_queue-IsValid name size start cap ps pt pc small fits),
        created-append p name size start cap s xs ring new np,
      )

-- `queue_cleanup` of a valid queue that is not NULL succeeds and leaves it valid and empty.
pub queue_cleanup-empty :
    (p r : ℕ) (s : Queues) (ms : List (List ℕ))
    → Holds s p r ms
    → p ≢ 0
    → let (code, s') = queue_cleanup p s in (code ≡ 0) × Holds s' p 0 []
unfolding queue_cleanup
queue_cleanup-empty p r s ms held np =
    let v = held.valid in
    let slot = v.slot in
    rw (==-false p 0 np, v.ready)
      (
        refl,
        Holds-put s p 0 _ s.memory []
            (record {
              size_pos = v.size_pos;
              start_pos = v.start_pos;
              fits = v.fits;
              end_at = v.end_at;
              slot = omega arith;
              room = omega arith;
              small = v.small;
              read_at = refl;
              write_at = ground arith;
              ready = refl;
            })
            refl,
      )

-- Only the empty list is headed by NULL.
IsRing-null : (l m : Links) (ys : List ℕ) → IsRing l 0 ys → IsRing m 0 ys
IsRing-null l m [] ring = ring
IsRing-null l m (y ∷ ys) ring =
    absurd (IsRing-ne_null l 0 y (y ∷ ys) ring (ground arith) (sym ring.0))

module _ (M : Kmem) where
  open M use {Store, kmem_free}

  -- `os_queue_delete` of a queue of the list takes it out of the list, moves the head on if the
  -- queue is the head, and frees the memory that the queue owns.
  pub os_queue_delete-erase :
      (p : ℕ) (s : Queues) (h : Store) (xs : List ℕ)
      → IsRing s.create s.create_ptr xs
      → has p xs ≡ true
      → let (code, s', h') = os_queue_delete M p (s, h) in
        (code ≡ 0) × IsRing s'.create s'.create_ptr (erase p xs) × (h' ≡ kmem_free (s.kmem_own p) h)
  unfolding os_queue_delete
  os_queue_delete-erase p s h xs ring i =
      let np = IsRing-ne_null s.create s.create_ptr p xs ring i in
      let rest = unlink-IsRing s.create s.create_ptr p xs ring i in
      let after = s.create.next p in
      elim (Bool-cases (s.create_ptr == p)) [
        | inr e ↦
            rw (==-false p 0 np, e)
              (refl, subst (λ t. IsRing (unlink p s.create) t (erase p xs)) (rw e refl) rest, refl)
        | inl e ↦ elim (Bool-cases (p == after)) [
          | inl alone ↦
              rw (==-false p 0 np, e, alone)
                (
                  refl,
                  IsRing-null (unlink p s.create) s.create (erase p xs)
                      (subst (λ t. IsRing (unlink p s.create) t (erase p xs)) (ground arith) rest),
                  refl,
                )
          | inr more ↦
              rw (==-false p 0 np, e, more)
                (
                  refl,
                  subst (λ t. IsRing (unlink p s.create) t (erase p xs)) (ground arith) rest,
                  refl,
                )
        ]
      ]
