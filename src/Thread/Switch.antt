-- ===== src/Thread/Switch.antt =====
-- `task_switch_context`, `task_switch_to_kernel_thread` and `SysTick_Handler`: which thread runs.
use stm32_os.Common.{
  has-append, ℕ, zero, suc, ◌≡◌, ◌≢◌, true, false, List, [], ◌∷◌, ◌++◌, arith, ◌==◌, ==-false,
  ==-true, nonzero, has, length, subst, sym, ap, ◌∙◌, Bool-cases, inl, inr, refl,
}
use stm32_os.Port.{is_ready}
use stm32_os.Ring.{Links, self_link}
use stm32_os.Ring.Chain.{IsRing, IsRing-rotate}
use stm32_os.Thread.{
  Threads, ThreadList, os_thread_add_to_list, os_thread_remove_from_list, run_kernel_thread,
  run_first, run_next, task_switch_context,
}
use stm32_os.Thread.Lists.{ListHolds, os_thread_remove_from_list-erase}
use mathlib.Core.List.{append_assoc, append-nil}

switch-next :
    (s : Threads) → s.current_ptr ≢ 0 → s.execute_ptr ≡ 0 → task_switch_context s ≡ run_next s
unfolding task_switch_context run_kernel_thread
switch-next s nn e = rw (==-false s.current_ptr 0 nn, e)

pub switch-first : (s : Threads) → s.execute_ptr ≢ 0 → task_switch_context s ≡ run_first s
unfolding task_switch_context run_kernel_thread
switch-first s nn = elim (Bool-cases (s.current_ptr == 0)) [
  | inl e ↦ rw (e, ==-false s.execute_ptr 0 nn, ==-false s.execute_ptr 0 nn)
  | inr e ↦ rw (e, ==-false s.execute_ptr 0 nn)
]

pub switch-idle :
    (s : Threads)
    → s.current_ptr ≡ 0
    → s.execute_ptr ≡ 0
    → s.kernel_thread_ptr ≢ 0
    → task_switch_context s
      ≡ run_first (record s {
        ready = self_link s.kernel_thread_ptr s.ready;
        execute_ptr = s.kernel_thread_ptr;
      })
unfolding task_switch_context run_kernel_thread
switch-idle s e f nn = rw (e, f, ==-false s.kernel_thread_ptr 0 nn)

-- Ready threads take turns: the one that runs goes to the end.
turn : List ℕ → List ℕ
turn [] = []
turn (x ∷ xs) = xs ++ x ∷ []

-- What stays the same while ready threads take turns.
abbrev Turned : Threads → Threads → Type 0
Turned s s' = (s'.state ≡ s.state) × (s'.execute_ptr ≡ s.execute_ptr)

next-ready :
    (s : Threads)
    → is_ready (s.state s.current_ptr) ≡ true
    → run_next s ≡ record s { current_ptr = s.ready.next s.current_ptr }
unfolding run_next
next-ready s r = rw r

turn-IsRing :
    (l : Links) (x : ℕ) (xs : List ℕ) → IsRing l x (x ∷ xs) → IsRing l (l.next x) (turn (x ∷ xs))
unfolding turn
turn-IsRing l x [] ring = (ring.3.0, ring.1, ring.2, ring.3)
turn-IsRing l x (b ∷ xs) ring =
    subst (λ p. IsRing l p (b ∷ xs ++ x ∷ [])) (sym ring.3.0) (IsRing-rotate l x b xs ring)

switch-turn :
    (s : Threads) (x : ℕ) (xs : List ℕ)
    → ListHolds ThreadList.current s (x ∷ xs)
    → s.execute_ptr ≡ 0
    → is_ready (s.state x) ≡ true
    → ListHolds ThreadList.current (task_switch_context s) (turn (x ∷ xs))
      × Turned s (task_switch_context s)
switch-turn s x xs held e r =
    let at : s.current_ptr ≡ x = held.0 in
    let r' : is_ready (s.state s.current_ptr) ≡ true =
      subst (λ y. is_ready (s.state y) ≡ true) (sym at) r in
    subst (λ u. ListHolds ThreadList.current u (turn (x ∷ xs)) × Turned s u)
      (sym (switch-next s (ground arith) e ∙ next-ready s r'))
      (
        subst (λ y. IsRing s.ready (s.ready.next y) (turn (x ∷ xs))) (sym at)
            (turn-IsRing s.ready x xs (refl, held.1, held.2, held.3)),
        (refl, refl),
      )

-- The state after `n` switches.
pub switches : ℕ → Threads → Threads
switches zero s = s
switches (suc n) s = switches n (task_switch_context s)

-- Round robin: while all threads of the list are ready, and none is to be executed first, every
-- one gets the processor in the order of the list. After as many switches as there are threads
-- before `ys`, the first of `ys` runs, and the others wait behind it in order; after one round
-- (`ys` empty) the list is what it was.
pub switches-turn :
    (xs ys : List ℕ) (s : Threads)
    → ListHolds ThreadList.current s (xs ++ ys)
    → s.execute_ptr ≡ 0
    → ((x : ℕ) → has x (xs ++ ys) ≡ true → is_ready (s.state x) ≡ true)
    → ListHolds ThreadList.current (switches (length xs) s) (ys ++ xs)
unfolding switches
switches-turn [] ys s held e all = rw append-nil held
switches-turn (x ∷ xs) ys s held e all =
    let (now, same) = switch-turn s x (xs ++ ys) held e (all x (ground arith)) in
    let now' : ListHolds ThreadList.current (task_switch_context s) (xs ++ (ys ++ x ∷ [])) =
      unfold turn in rw append_assoc at now in
    rw (← append_assoc ys (x ∷ []) xs) (
      switches-turn xs (ys ++ x ∷ []) (task_switch_context s) now' (same.1 ∙ e) λ y i.
        ap (λ f. is_ready (f y)) same.0
        ∙ all y (
            ground (
              arith,
              has-append y xs ys,
              has-append y xs (ys ++ x ∷ []),
              has-append y ys (x ∷ []),
            )))

next-waiting :
    (s : Threads)
    → is_ready (s.state s.current_ptr) ≡ false
    → run_next s ≡ os_thread_remove_from_list ThreadList.current s.current_ptr s
unfolding run_next
next-waiting s r = rw r

-- Where no thread is to be executed first, a running thread that is no longer ready leaves the
-- list at the next switch, and the thread behind it runs; the others keep their order.
pub task_switch_context-waiting :
    (s : Threads) (x : ℕ) (xs : List ℕ)
    → ListHolds ThreadList.current s (x ∷ xs)
    → s.execute_ptr ≡ 0
    → is_ready (s.state x) ≡ false
    → ListHolds ThreadList.current (task_switch_context s) xs
task_switch_context-waiting s x xs held e r =
    let at : s.current_ptr ≡ x = held.0 in
    let r' : is_ready (s.state s.current_ptr) ≡ false =
      subst (λ y. is_ready (s.state y) ≡ false) (sym at) r in
    subst (λ u. ListHolds ThreadList.current u xs)
      (sym (switch-next s (ground arith) e ∙ next-waiting s r'))
      (rw (==-true s.current_ptr x at) at (
        os_thread_remove_from_list-erase ThreadList.current s.current_ptr s (x ∷ xs) held
          (ground arith)))

add_state :
    (l : ThreadList) (t x : ℕ) (s : Threads) → (os_thread_add_to_list l t s).state x ≡ s.state x
unfolding os_thread_add_to_list
add_state ThreadList.created t x s = ground arith
add_state _ t x s = ground arith

remove_state :
    (l : ThreadList) (t x : ℕ) (s : Threads)
    → (os_thread_remove_from_list l t s).state x ≡ s.state x
unfolding os_thread_remove_from_list
remove_state ThreadList.created t x s = ground arith
remove_state _ t x s = ground arith

run_first_state : (s : Threads) (x : ℕ) → (run_first s).state x ≡ s.state x
unfolding run_first
run_first_state s x = add_state ThreadList.current _ x _ ∙ remove_state ThreadList.execute _ x s

run_next_state : (s : Threads) (x : ℕ) → (run_next s).state x ≡ s.state x
unfolding run_next
run_next_state s x = elim (Bool-cases (is_ready (s.state s.current_ptr))) [
  | inl e ↦ rw e
  | inr e ↦ rw e (remove_state ThreadList.current s.current_ptr x s)
]

run_kernel_thread_state : (s : Threads) (x : ℕ) → (run_kernel_thread s).state x ≡ s.state x
unfolding run_kernel_thread
run_kernel_thread_state s x = ground arith

-- A switch changes the state of no thread.
pub task_switch_context_state : (s : Threads) (x : ℕ) → (task_switch_context s).state x ≡ s.state x
unfolding task_switch_context
task_switch_context_state s x =
    let s1 : Threads = run_kernel_thread s in
    elim (Bool-cases (nonzero s1.execute_ptr)) [
      | inl e ↦ rw e (run_first_state s1 x ∙ run_kernel_thread_state s x)
      | inr e ↦ rw e (run_next_state s1 x ∙ run_kernel_thread_state s x)
    ]
