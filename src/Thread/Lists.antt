-- ===== src/Thread/Lists.antt =====
-- The operations on thread lists against lists of addresses.
use stm32_os.Common.{
  ℕ, ◌≡◌, ◌≢◌, true, false, List, [], ◌∷◌, ◌++◌, arith, ◌==◌, ==-false, ==-true, has, erase, subst₂,
  sym, ap, ◌∙◌, Bool-cases, inl, inr, refl,
}
use stm32_os.Ring.{Links, unlink, self_link, insert_before}
use stm32_os.Ring.Chain.{IsRing, IsRing-ne_null}
use stm32_os.Ring.Insert.{insert_before-append, self_link-IsRing}
use stm32_os.Ring.Unlink.{head_without, unlink-IsRing, unlink_self}
use stm32_os.Thread.{
  Threads, ThreadList, head_of, set_head, links_of, set_links, os_thread_add_to_list,
  os_thread_remove_from_list,
}

-- A thread list holds these threads, from its head on.
abbrev pub ListHolds : ThreadList → Threads → List ℕ → Type 0
ListHolds list s xs = IsRing (links_of list s) (head_of list s) xs

-- The links and the head of one list after an update of either.
head_of-set_head : (l : ThreadList) (p : ℕ) (s : Threads) → head_of l (set_head l p s) ≡ p
head_of-set_head ThreadList.created p s = refl
head_of-set_head _ p s = refl

head_of-set_links :
    (l : ThreadList) (k : Links) (s : Threads) → head_of l (set_links l k s) ≡ head_of l s
head_of-set_links ThreadList.created k s = refl
head_of-set_links _ k s = refl

pub links_of-set_links :
    (l : ThreadList) (k : Links) (s : Threads) → links_of l (set_links l k s) ≡ k
links_of-set_links ThreadList.created k s = refl
links_of-set_links _ k s = refl

links_of-set_head :
    (l : ThreadList) (p : ℕ) (s : Threads) → links_of l (set_head l p s) ≡ links_of l s
links_of-set_head ThreadList.created p s = refl
links_of-set_head _ p s = refl

pub add_first :
    (list : ThreadList) (thread : ℕ) (s : Threads)
    → head_of list s ≡ 0
    → (links_of list (os_thread_add_to_list list thread s) ≡ self_link thread (links_of list s))
      × (head_of list (os_thread_add_to_list list thread s) ≡ thread)
unfolding os_thread_add_to_list
add_first list thread s e = (
  rw (==-true (head_of list s) 0 e) (links_of-set_links list _ _),
  rw (==-true (head_of list s) 0 e) (head_of-set_links list _ _ ∙ head_of-set_head list thread s),
)

pub add_more :
    (list : ThreadList) (thread : ℕ) (s : Threads)
    → head_of list s ≢ 0
    → (links_of list (os_thread_add_to_list list thread s)
        ≡ insert_before (head_of list s) thread (links_of list s))
      × (head_of list (os_thread_add_to_list list thread s) ≡ head_of list s)
unfolding os_thread_add_to_list
add_more list thread s ne = (
  rw (==-false (head_of list s) 0 ne) (links_of-set_links list _ s),
  rw (==-false (head_of list s) 0 ne) (head_of-set_links list _ s),
)

-- `os_thread_add_to_list` puts a thread that is not NULL and not in the list at its end.
pub os_thread_add_to_list-append :
    (list : ThreadList) (thread : ℕ) (s : Threads) (xs : List ℕ)
    → ListHolds list s xs
    → has thread xs ≡ false
    → thread ≢ 0
    → ListHolds list (os_thread_add_to_list list thread s) (xs ++ thread ∷ [])
os_thread_add_to_list-append list thread s [] held new nn =
    let (l, h) = add_first list thread s held in
    subst₂ (λ k p. IsRing k p (thread ∷ [])) (sym l) (sym h)
      (self_link-IsRing (links_of list s) thread nn)
os_thread_add_to_list-append list thread s (x ∷ xs) held new nn =
    let at : head_of list s ≡ x = held.0 in
    let (l, h) = add_more list thread s (ground arith) in
    subst₂ (λ k p. IsRing k p ((x ∷ xs) ++ thread ∷ []))
      (ap (λ y. insert_before y thread (links_of list s)) (sym at) ∙ sym l) (sym (h ∙ at))
      (insert_before-append (links_of list s) x xs thread (refl, held.1, held.2, held.3) new nn)

pub remove_links :
    (list : ThreadList) (thread : ℕ) (s : Threads)
    → thread ≢ 0
    → (links_of list (os_thread_remove_from_list list thread s) ≡ unlink thread (links_of list s))
      × (head_of list (os_thread_remove_from_list list thread s)
          ≡ head_without thread (head_of list s) (links_of list s))
unfolding os_thread_remove_from_list
remove_links list thread s nn = elim (Bool-cases (head_of list s == thread)) [
  | inl e ↦
      rw (==-false thread 0 nn, head_of-set_links, e)
        (
          links_of-set_head list _ _ ∙ links_of-set_links list _ s,
          head_of-set_head list _ _ ∙ ground (arith, unlink_self (links_of list s) thread),
        )
  | inr e ↦
      rw (==-false thread 0 nn, head_of-set_links, e)
        (links_of-set_links list _ s, head_of-set_links list _ s)
]

-- `os_thread_remove_from_list` takes a thread of the list out of it, and moves the head on if the
-- thread is the head.
pub os_thread_remove_from_list-erase :
    (list : ThreadList) (thread : ℕ) (s : Threads) (xs : List ℕ)
    → ListHolds list s xs
    → has thread xs ≡ true
    → ListHolds list (os_thread_remove_from_list list thread s) (erase thread xs)
os_thread_remove_from_list-erase list thread s xs held i =
    let nn = IsRing-ne_null (links_of list s) (head_of list s) thread xs held i in
    let (l, h) = remove_links list thread s nn in
    subst₂ (λ k p. IsRing k p (erase thread xs)) (sym l) (sym h)
      (unlink-IsRing (links_of list s) (head_of list s) thread xs held i)
