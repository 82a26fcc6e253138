-- ===== src/Thread/Manage/Create.antt =====
-- `os_thread_create`: a new thread stands at the end of both lists.
use stm32_os.Common.{
  ℕ, ◌+◌, ◌%◌, ◌≤◌, ◌<◌, ◌≡◌, ◌≢◌, false, List, [], ◌∷◌, ◌++◌, arith, ==-false, if◌then◌else◌,
  nonzero, update, has, subst, subst₂, sym, refl, Bool-cases, inl, inr, ne_of_has,
}
use stm32_os.Port.{OsState, os_success}
use stm32_os.Ring.{Links, insert_before, self_link}
use stm32_os.Ring.Chain.{IsRing, IsRing-frame}
use stm32_os.Ring.Insert.{insert_before-append, self_link-IsRing}
use stm32_os.Thread.{Threads, ThreadList}
use stm32_os.Thread.Lists.{ListHolds}
use stm32_os.Thread.Manage.{
  os_build_stack, clear_thread, new_thread, set_thread, join_create, join_ready, os_thread_create,
}
use stm32_os.Thread.Manage.Build.{IsFrame, os_build_stack-IsFrame}

-- What `set_thread` leaves alone: the heads, and the links of the other threads.
record Kept (thread : ℕ) (s s' : Threads) : Type 0 where
  created_ptr : s'.created_ptr ≡ s.created_ptr
  current_ptr : s'.current_ptr ≡ s.current_ptr
  create :
      (x : ℕ)
      → ¬ (x ≡ thread)
      → (s'.create.next x ≡ s.create.next x) × (s'.create.previous x ≡ s.create.previous x)
  ready :
      (x : ℕ)
      → ¬ (x ≡ thread)
      → (s'.ready.next x ≡ s.ready.next x) × (s'.ready.previous x ≡ s.ready.previous x)

set_thread-Kept :
    (r t name func para slice : ℕ) (s : Threads) → Kept t s (set_thread r t name func para slice s)
unfolding set_thread new_thread clear_thread
set_thread-Kept r t name func para slice s = record {
  created_ptr = refl;
  current_ptr = refl;
  create = λ x ne. ground arith;
  ready = λ x ne. ground arith;
}

join-IsRing :
    (l : Links) (p t : ℕ) (xs : List ℕ)
    → IsRing l p xs
    → has t xs ≡ false
    → t ≢ 0
    → IsRing
        (if nonzero p then insert_before p t l else self_link t l)
        (if nonzero p then p else t)
        (xs ++ t ∷ [])
join-IsRing l p t [] ring new nn = rw ring (self_link-IsRing l t nn)
join-IsRing l p t (x ∷ xs) ring new nn =
    subst
      (λ y.
        IsRing (if nonzero y then insert_before y t l else self_link t l)
          (if nonzero y then y else t) ((x ∷ xs) ++ t ∷ []))
      (sym ring.0)
      (rw (==-false x 0 (ground arith))
        (insert_before-append l x xs t (refl, ring.1, ring.2, ring.3) new nn))

join_create-append :
    (t : ℕ) (s : Threads) (xs : List ℕ)
    → ListHolds ThreadList.created s xs
    → has t xs ≡ false
    → t ≢ 0
    → ListHolds ThreadList.created (join_create t s) (xs ++ t ∷ [])
unfolding join_create
join_create-append t s xs held new nn = elim (Bool-cases (nonzero s.created_ptr)) [
  | inl e ↦ rw e (rw e at (join-IsRing s.create s.created_ptr t xs held new nn))
  | inr e ↦ rw e (rw e at (join-IsRing s.create s.created_ptr t xs held new nn))
]

join_ready-append :
    (t : ℕ) (s : Threads) (xs : List ℕ)
    → ListHolds ThreadList.current s xs
    → has t xs ≡ false
    → t ≢ 0
    → ListHolds ThreadList.current (join_ready t s) (xs ++ t ∷ [])
unfolding join_ready
join_ready-append t s xs held new nn = elim (Bool-cases (nonzero s.current_ptr)) [
  | inl e ↦ rw e (rw e at (join-IsRing s.ready s.current_ptr t xs held new nn))
  | inr e ↦ rw e (rw e at (join-IsRing s.ready s.current_ptr t xs held new nn))
]

join_create-ready :
    (t : ℕ) (s : Threads)
    → ((join_create t s).ready ≡ s.ready) × ((join_create t s).current_ptr ≡ s.current_ptr)
unfolding join_create
join_create-ready t s = elim (Bool-cases (nonzero s.created_ptr)) [
  | inl e ↦ rw e (refl, refl)
  | inr e ↦ rw e (refl, refl)
]

join_ready-create :
    (t : ℕ) (s : Threads)
    → ((join_ready t s).create ≡ s.create) × ((join_ready t s).created_ptr ≡ s.created_ptr)
unfolding join_ready
join_ready-create t s = elim (Bool-cases (nonzero s.current_ptr)) [
  | inl e ↦ rw e (refl, refl)
  | inr e ↦ rw e (refl, refl)
]

-- A new thread, whose structure is not NULL and in neither list, is put at the end of the list of
-- all threads and at the end of the list of those that can run, and is ready. The threads before it
-- keep their order.
pub os_thread_create-append :
    (r t name func para slice : ℕ) (s : Threads) (cs xs : List ℕ)
    → ListHolds ThreadList.created s cs
    → ListHolds ThreadList.current s xs
    → has t cs ≡ false
    → has t xs ≡ false
    → t ≢ 0
    → ((os_thread_create r t name func para slice s).0 ≡ os_success)
      × ListHolds ThreadList.created (os_thread_create r t name func para slice s).1 (cs ++ t ∷ [])
      × ListHolds ThreadList.current (os_thread_create r t name func para slice s).1 (xs ++ t ∷ [])
      × ((os_thread_create r t name func para slice s).1.state t ≡ OsState.ready)
unfolding os_thread_create
os_thread_create-append r t name func para slice s cs xs all run newc newr nn =
    let s0 = set_thread r t name func para slice s in
    let kept = set_thread-Kept r t name func para slice s in
    let all0 : ListHolds ThreadList.created s0 cs =
      subst (λ p. IsRing s0.create p cs) (sym kept.created_ptr)
        (IsRing-frame s.create s0.create s.created_ptr cs
          (λ x i. kept.create x (ne_of_has x t cs i newc)) all) in
    let run0 : ListHolds ThreadList.current s0 xs =
      subst (λ p. IsRing s0.ready p xs) (sym kept.current_ptr)
        (IsRing-frame s.ready s0.ready s.current_ptr xs
          (λ x i. kept.ready x (ne_of_has x t xs i newr)) run) in
    let s1 = join_create t s0 in
    let run1 : ListHolds ThreadList.current s1 xs =
      subst₂ (λ l p. IsRing l p xs) (sym (join_create-ready t s0).0)
        (sym (join_create-ready t s0).1) run0 in
    (
      refl,
      subst₂ (λ l p. IsRing l p (cs ++ t ∷ [])) (sym (join_ready-create t s1).0)
          (sym (join_ready-create t s1).1) (join_create-append t s0 cs all0 newc nn),
      join_ready-append t s1 xs run1 newr nn,
      ground arith,
    )

new_thread_fields :
    (t name func para slice : ℕ) (s : Threads)
    → ((new_thread t name func para slice s).func t ≡ func)
      × ((new_thread t name func para slice s).input_para t ≡ para)
      × ((a : ℕ) → t + 16 ≤ a → a < t + 1040 → (new_thread t name func para slice s).word a ≡ 0)
unfolding new_thread clear_thread
new_thread_fields t name func para slice s = (ground arith, ground arith, λ a le lt. ground arith)

set_thread-IsFrame :
    (r t name func para slice : ℕ) (s : Threads)
    → IsFrame
        (set_thread r t name func para slice s).word
        ((set_thread r t name func para slice s).top_of_stack t)
        para
        r
        func
      × ((set_thread r t name func para slice s).top_of_stack t % 8 ≡ 0)
      × (t + 16 ≤ (set_thread r t name func para slice s).top_of_stack t)
      × ((set_thread r t name func para slice s).top_of_stack t + 64 ≤ t + 1040)
unfolding set_thread
set_thread-IsFrame r t name func para slice s =
    let s1 = new_thread t name func para slice s in
    let (f, p, clear) = new_thread_fields t name func para slice s in
    let (frame, aligned, low, high, _, _) = os_build_stack-IsFrame r t s1 clear in
    let top = (os_build_stack r t s1).1 in
    let at : update s1.top_of_stack t top t ≡ top = ground arith in
    subst
      (λ q.
        IsFrame (os_build_stack r t s1).0 q para r func
        × (q % 8 ≡ 0)
        × (t + 16 ≤ q)
        × (q + 64 ≤ t + 1040))
      (sym at)
      (subst₂ (λ a b. IsFrame (os_build_stack r t s1).0 top a r b) p f frame, aligned, low, high)

join_word :
    (t : ℕ) (s : Threads)
    → ((join_ready t (join_create t s)).word ≡ s.word)
      × ((join_ready t (join_create t s)).top_of_stack ≡ s.top_of_stack)
unfolding join_ready join_create
join_word t s = ground arith

-- A new thread starts from a complete frame inside its own stack: it enters `func` with `para` and
-- returns into `thread_return_handle` (`r`); the stack pointer is a multiple of 8.
pub os_thread_create-IsFrame :
    (r t name func para slice : ℕ) (s : Threads)
    → let s' = (os_thread_create r t name func para slice s).1 in
      IsFrame s'.word (s'.top_of_stack t) para r func
      × (s'.top_of_stack t % 8 ≡ 0)
      × (t + 16 ≤ s'.top_of_stack t)
      × (s'.top_of_stack t + 64 ≤ t + 1040)
unfolding os_thread_create
os_thread_create-IsFrame r t name func para slice s =
    let s0 = set_thread r t name func para slice s in
    let (w, p) = join_word t s0 in
    subst₂
      (λ f g. IsFrame f (g t) para r func × (g t % 8 ≡ 0) × (t + 16 ≤ g t) × (g t + 64 ≤ t + 1040))
      (sym w) (sym p) (set_thread-IsFrame r t name func para slice s)
