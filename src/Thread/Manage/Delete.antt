-- ===== src/Thread/Manage/Delete.antt =====
-- `os_thread_delete` of a ready thread.
use stm32_os.Common.{
  ℕ, zero, suc, ◌<◌, ◌≡◌, ◌≢◌, true, some, List, arith, ◌==◌, ==-false, ==-true, if◌then◌else◌, has,
  erase, subst, subst₂, sym, ap, ◌∙◌, Bool-cases, inl, inr, refl,
}
use stm32_os.Port.{Kmem, is_ready, sram_size, sub32}
use stm32_os.Ring.{unlink}
use stm32_os.Ring.Chain.{IsRing, IsRing-ne_null}
use stm32_os.Ring.Unlink.{head_without, unlink-IsRing, unlink_self}
use stm32_os.Timer.{Timers, os_timer_delete}
use stm32_os.Timer.Tick.{os_timer_delete-null}
use stm32_os.Thread.{Threads, ThreadList}
use stm32_os.Thread.Lists.{ListHolds}
use stm32_os.Thread.Manage.{World, leave_ready, leave_create, free_list, os_thread_delete}

leave_ready-erase :
    (t : ℕ) (s : Threads) (xs : List ℕ)
    → ListHolds ThreadList.current s xs
    → has t xs ≡ true
    → is_ready (s.state t) ≡ true
    → ListHolds ThreadList.current (leave_ready t s) (erase t xs)
unfolding leave_ready
leave_ready-erase t s xs held i r =
    let rest = unlink-IsRing s.ready s.current_ptr t xs held i in
    let l = unlink t s.ready in
    let p = s.current_ptr in
    let head : head_without t p s.ready
        ≡ (if t == p then (if t == l.next p then 0 else l.next p) else p) =
      ground (arith, unlink_self s.ready t) in
    let done : IsRing l (if t == p then (if t == l.next p then 0 else l.next p) else p)
        (erase t xs) =
      subst (λ y. IsRing l y (erase t xs)) head rest in
    rw r done

leave_ready_create :
    (t : ℕ) (s : Threads)
    → ((leave_ready t s).create ≡ s.create)
      × ((leave_ready t s).created_ptr ≡ s.created_ptr)
      × ((leave_ready t s).timer_own ≡ s.timer_own)
unfolding leave_ready
leave_ready_create t s = elim (Bool-cases (is_ready (s.state t))) [
  | inl e ↦ rw e (refl, refl, refl)
  | inr e ↦ rw e (refl, refl, refl)
]

leave_create_fields :
    (t : ℕ) (s : Threads)
    → ((leave_create t s).timer_own t ≡ s.timer_own t)
      × ((leave_create t s).ready ≡ s.ready)
      × ((leave_create t s).current_ptr ≡ s.current_ptr)
      × ((leave_create t s).created_ptr ≡ s.created_ptr)
      × ((leave_create t s).create ≡ unlink t s.create)
unfolding leave_create
leave_create_fields t s = (refl, refl, refl, refl, refl)

module _ (M : Kmem) where
  open M use {Store, work_previous, kmem_free}

  free_list-one :
      (k list ptr : ℕ) (h : Store) → 0 < k → list ≡ ptr → free_list M k list ptr h ≡ some h
  unfolding free_list
  free_list-one zero list ptr h pos e = absurd (omega arith)
  free_list-one (suc k) list ptr h pos e = rw (==-true list ptr e)

  -- The threads after a deletion.
  abbrev left_threads : (t : ℕ) → Threads → Threads
  left_threads t s =
      let s1 = leave_create t (leave_ready t s) in
      record s1 { created_count = sub32 s1.created_count 1 }

  delete-step :
      (t : ℕ) (w : World M) (h : Store)
      → t ≢ 0
      → w.threads.kmem_list t ≢ 0
      → w.threads.ready.next w.threads.current_ptr ≢ w.threads.current_ptr
      → os_timer_delete M
          ((leave_create t (leave_ready t w.threads)).timer_own t)
          (w.timers, w.store)
        ≡ (w.timers, w.store)
      → free_list M sram_size
          (w.threads.kmem_list t)
          (work_previous (w.threads.kmem_list t) w.store)
          w.store
        ≡ some h
      → os_thread_delete M t w
        ≡ some (
          0,
          record {
            threads = left_threads t w.threads;
            timers = w.timers;
            store = kmem_free (w.threads.kmem_list t) h;
          },
        )
  unfolding os_thread_delete
  delete-step t w h nt nl other timed freed =
      let s = w.threads in
      let after : Timers × Store → World M = λ v. record {
        threads = left_threads t s;
        timers = v.0;
        store = kmem_free (s.kmem_list t) h;
      } in
      rw
        (
          ==-false t 0 nt,
          ==-false (s.kmem_list t) 0 nl,
          ==-false s.current_ptr (s.ready.next s.current_ptr) (λ e. other (sym e)),
          timed,
          freed,
        )
        (ap (λ v. some (0, after v)) timed)

  -- `os_thread_delete` of a ready thread that owns no timer and one block of memory, while another
  -- thread can run, succeeds: the thread leaves both lists, the others keep their order, its memory
  -- is freed and the timers stay. The head of the list of those that can run moves on if the thread
  -- is the head; that of the list of all threads, `os_thread_created_ptr`, stays even then.
  pub os_thread_delete-erase :
      (t : ℕ) (w : World M) (cs xs : List ℕ)
      → ListHolds ThreadList.created w.threads cs
      → ListHolds ThreadList.current w.threads xs
      → has t cs ≡ true
      → has t xs ≡ true
      → is_ready (w.threads.state t) ≡ true
      → w.threads.ready.next w.threads.current_ptr ≢ w.threads.current_ptr
      → w.threads.timer_own t ≡ 0
      → w.threads.kmem_list t ≢ 0
      → work_previous (w.threads.kmem_list t) w.store ≡ w.threads.kmem_list t
      → (w' : World M) × (os_thread_delete M t w ≡ some (0, w'))
        × ListHolds ThreadList.current w'.threads (erase t xs)
        × IsRing w'.threads.create
            (head_without t w.threads.created_ptr w.threads.create)
            (erase t cs)
        × (w'.threads.created_ptr ≡ w.threads.created_ptr)
        × (w'.timers ≡ w.timers)
        × (w'.store ≡ kmem_free (w.threads.kmem_list t) w.store)
  os_thread_delete-erase t w cs xs all run ic ir ready other free nl one =
      let s = w.threads in
      let s1 = leave_ready t s in
      let nt = IsRing-ne_null s.ready s.current_ptr t xs run ir in
      let (same, head, timer) = leave_ready_create t s in
      let own : (leave_create t s1).timer_own t ≡ 0 =
        (leave_create_fields t s1).0 ∙ ap (λ f. f t) timer ∙ free in
      let h = w.store in
      (
        record {
          threads = left_threads t s;
          timers = w.timers;
          store = kmem_free (s.kmem_list t) h;
        },
        delete-step t w h nt nl other
            (os_timer_delete-null M ((leave_create t s1).timer_own t) w.timers h own)
            (free_list-one sram_size (s.kmem_list t) (work_previous (s.kmem_list t) h) h
              (omega arith) (sym one)),
        subst₂ (λ l p. IsRing l p (erase t xs)) (sym (leave_create_fields t s1).1)
            (sym (leave_create_fields t s1).2) (leave_ready-erase t s xs run ir ready),
        subst (λ l. IsRing l (head_without t s.created_ptr s.create) (erase t cs))
            (ap (unlink t) (sym same) ∙ sym (leave_create_fields t s1).4)
            (unlink-IsRing s.create s.created_ptr t cs all ic),
        (leave_create_fields t s1).3 ∙ head,
        refl,
        refl,
      )
