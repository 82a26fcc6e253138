-- ===== src/Thread/First.antt =====
-- `task_switch_context` where a thread is to be executed first, or no thread is left.
use stm32_os.Common.{ℕ, ◌≡◌, ◌≢◌, false, List, [], ◌∷◌, arith, has, subst, sym, ap, ◌∙◌, refl}
use stm32_os.Ring.{unlink, self_link, insert_before}
use stm32_os.Ring.Chain.{IsRing, IsRing-frame}
use stm32_os.Ring.Insert.{insert_before-front, self_link-IsRing}
use stm32_os.Ring.Unlink.{unlink_alone}
use stm32_os.Thread.{
  Threads, ThreadList, os_thread_add_to_list, os_thread_remove_from_list, run_first,
  task_switch_context,
}
use stm32_os.Thread.Lists.{ListHolds, add_first, add_more, remove_links}
use stm32_os.Thread.Switch.{switch-first, switch-idle}

current-remove :
    (t : ℕ) (s : Threads)
    → (os_thread_remove_from_list ThreadList.execute t s).current_ptr ≡ s.current_ptr
unfolding os_thread_remove_from_list
current-remove t s = ground arith

execute-add :
    (t : ℕ) (s : Threads)
    → (os_thread_add_to_list ThreadList.current t s).execute_ptr ≡ s.execute_ptr
unfolding os_thread_add_to_list
execute-add t s = ground arith

-- A thread outside the list joins it and becomes its head.
join-front :
    (t : ℕ) (s : Threads) (xs : List ℕ)
    → ListHolds ThreadList.current s xs
    → has t xs ≡ false
    → t ≢ 0
    → IsRing (os_thread_add_to_list ThreadList.current t s).ready t (t ∷ xs)
join-front t s [] held new nn =
    subst (λ k. IsRing k t (t ∷ [])) (sym (add_first ThreadList.current t s held).0)
      (self_link-IsRing s.ready t nn)
join-front t s (x ∷ xs) held new nn =
    let at : s.current_ptr ≡ x = held.0 in
    subst (λ k. IsRing k t (t ∷ x ∷ xs))
      (ap (λ y. insert_before y t s.ready) (sym at)
        ∙ sym (add_more ThreadList.current t s (ground arith)).0)
      (insert_before-front s.ready x xs t (refl, held.1, held.2, held.3) new nn)

first-front :
    (t : ℕ) (s : Threads) (xs : List ℕ)
    → ListHolds ThreadList.execute s (t ∷ [])
    → ListHolds ThreadList.current s xs
    → has t xs ≡ false
    → ListHolds ThreadList.current (run_first s) (t ∷ xs)
      × ListHolds ThreadList.execute (run_first s) []
unfolding run_first
first-front t s xs alone held new =
    let at : s.execute_ptr ≡ t = alone.0 in
    let nn : s.execute_ptr ≢ 0 = ground arith in
    let s1 = os_thread_remove_from_list ThreadList.execute s.execute_ptr s in
    let (l, h) = remove_links ThreadList.execute s.execute_ptr s nn in
    let same : IsRing s.ready s1.current_ptr xs =
      subst (λ p. IsRing s.ready p xs) (sym (current-remove s.execute_ptr s)) held in
    let held1 : ListHolds ThreadList.current s1 xs =
      subst (λ k. IsRing k s1.current_ptr xs) (sym l)
        (IsRing-frame s.ready (unlink s.execute_ptr s.ready) s1.current_ptr xs
          (λ y i. unlink_alone s.ready s.execute_ptr y (ground arith) (ground arith)) same) in
    (
      subst
          (λ y.
            IsRing (os_thread_add_to_list ThreadList.current s.execute_ptr s1).ready s.execute_ptr
              (y ∷ xs))
          at (join-front s.execute_ptr s1 xs held1 (ground arith) nn),
      execute-add s.execute_ptr s1 ∙ h ∙ ground arith,
    )

-- A thread that waits alone in `os_thread_execute_ptr`, and is not in the list of those that can
-- run, runs at the next switch, before the threads
-- of the list, which keep their order; nothing is left to be executed first.
pub task_switch_context-first :
    (t : ℕ) (s : Threads) (xs : List ℕ)
    → ListHolds ThreadList.execute s (t ∷ [])
    → ListHolds ThreadList.current s xs
    → has t xs ≡ false
    → ListHolds ThreadList.current (task_switch_context s) (t ∷ xs)
      × ListHolds ThreadList.execute (task_switch_context s) []
task_switch_context-first t s xs alone held new =
    subst (λ u. ListHolds ThreadList.current u (t ∷ xs) × ListHolds ThreadList.execute u [])
      (sym (switch-first s (ground arith))) (first-front t s xs alone held new)

-- Where no thread can run and none is to be executed first, the switch makes the kernel thread,
-- which is not NULL, the only one that runs.
pub task_switch_context-idle :
    (s : Threads)
    → ListHolds ThreadList.current s []
    → ListHolds ThreadList.execute s []
    → s.kernel_thread_ptr ≢ 0
    → ListHolds ThreadList.current (task_switch_context s) (s.kernel_thread_ptr ∷ [])
      × ListHolds ThreadList.execute (task_switch_context s) []
task_switch_context-idle s empty none_first nn =
    let s1 : Threads = record s {
      ready = self_link s.kernel_thread_ptr s.ready;
      execute_ptr = s.kernel_thread_ptr;
    } in
    subst
      (λ u.
        ListHolds ThreadList.current u (s.kernel_thread_ptr ∷ [])
        × ListHolds ThreadList.execute u [])
      (sym (switch-idle s empty none_first nn))
      (first-front s.kernel_thread_ptr s1 [] (self_link-IsRing s.ready s.kernel_thread_ptr nn) empty
        refl)
