-- ===== src/Block/Buddy/Insert.antt =====
-- memory_block_insert: a block joins the list of its size, in the order of the addresses.
use stm32_os.Common.{
  ℕ, ◌+◌, ◌%◌, ◌^◌, ◌≤◌, ◌<◌, ◌≡◌, ◌≢◌, refl, sym, subst, List, [], ◌∷◌, some, arith, ◌==◌, ==-true,
  ==-false, Bool-cases, inl, inr, ltb, subst₂, ◌&&◌, false, has, length, update,
}
use stm32_os.Port.{sram_size, sub32}
use stm32_os.Ring.{Links, insert_before, self_link}
use stm32_os.Ring.Chain.{IsRing}
use stm32_os.Ring.Insert.{self_link-IsRing}
use stm32_os.Block.{Blocks}
use stm32_os.Block.Buddy.{
  list_length, find_next, link_block, insert_into, memory_block_insert, normalize_size,
}
use stm32_os.Block.Buddy.Round.{normalize_size-least, pow_at_most}
use stm32_os.Block.Buddy.Order.{
  Sorted, place, place-Sorted, stop, find_next-stop, new_head, insert_before-spares,
  insert_before-place,
}

-- List `i` of free blocks: the blocks `xs`, from the lowest address up.
pub record ListHolds (s : Blocks) (i : ℕ) (xs : List ℕ) : Type 0 where
  pub ring : IsRing s.work (s.buddy_system_list i) xs
  pub sorted : Sorted s.start xs

-- A block joined list `i`; the other lists have the heads, and the other structures the links, that
-- they had.
pub record Joined (s : Blocks) (i block : ℕ) (xs : List ℕ) (s' : Blocks) : Type 0 where
  pub holds : ListHolds s' i (place s.start block xs)
  pub others : (j : ℕ) → j ≢ i → s'.buddy_system_list j ≡ s.buddy_system_list j
  pub spares :
      (x : ℕ)
      → has x (block ∷ xs) ≡ false
      → (s'.work.next x ≡ s.work.next x) × (s'.work.previous x ≡ s.work.previous x)

pub record IntoList (s : Blocks) (i block : ℕ) (xs : List ℕ) : Type 0 where
  pub after : Blocks
  pub result : insert_into i block s ≡ some after
  pub joined : Joined s i block xs after
  pub start : after.start ≡ s.start
  pub size : after.size ≡ s.size

update_same : (f : ℕ → ℕ) (i v : ℕ) → update f i v i ≡ v
update_same f i v = rw (==-true i i refl) refl

update_other : (f : ℕ → ℕ) (i v j : ℕ) → j ≢ i → update f i v j ≡ f j
update_other f i v j ne = ground arith

self_link-spares :
    (l : Links) (n x : ℕ)
    → x ≢ n
    → ((self_link n l).next x ≡ l.next x) × ((self_link n l).previous x ≡ l.previous x)
unfolding self_link
self_link-spares l n x ne = ground arith

insert_into-empty :
    (s : Blocks) (i block : ℕ) → ListHolds s i [] → block ≢ 0 → IntoList s i block []
unfolding insert_into
insert_into-empty s i block held nb =
    let lists = update s.buddy_system_list i block in
    record {
      after = record s { buddy_system_list = lists; work = self_link block s.work };
      result = rw (==-true (s.buddy_system_list i) 0 held.ring) refl;
      joined = record {
        holds = record {
          ring =
              subst (λ p. IsRing (self_link block s.work) p (block ∷ []))
                (sym (update_same s.buddy_system_list i block)) (self_link-IsRing s.work block nb);
          sorted = tt;
        };
        others = λ j ne. update_other s.buddy_system_list i block j ne;
        spares = λ x o. self_link-spares s.work block x (ground arith);
      };
      start = refl;
      size = refl;
    }

-- The heads that `link_block` leaves.
link_block-head :
    (s : Blocks) (i block y : ℕ)
    → (link_block i block y s).buddy_system_list i
      ≡ new_head s.start (s.buddy_system_list i) block y
unfolding link_block
link_block-head s i block y =
    elim (Bool-cases ((y == s.buddy_system_list i) && ltb (s.start block) (s.start y))) [
      | inl e ↦ rw (e, ==-true i i refl) refl
      | inr e ↦ rw e refl
    ]

link_block-others :
    (s : Blocks) (i block y j : ℕ)
    → j ≢ i
    → (link_block i block y s).buddy_system_list j ≡ s.buddy_system_list j
unfolding link_block
link_block-others s i block y j ne =
    elim (Bool-cases ((y == s.buddy_system_list i) && ltb (s.start block) (s.start y))) [
      | inl e ↦ rw e (update_other s.buddy_system_list i block j ne)
      | inr e ↦ rw e refl
    ]

link_block-same :
    (s : Blocks) (i block y : ℕ)
    → ((link_block i block y s).work ≡ insert_before y block s.work)
      × ((link_block i block y s).start ≡ s.start)
      × ((link_block i block y s).size ≡ s.size)
unfolding link_block
link_block-same s i block y = (refl, refl, refl)

insert_into-result :
    (s : Blocks) (i block y : ℕ)
    → s.buddy_system_list i ≢ 0
    → (let h = s.buddy_system_list i in find_next sram_size s.start s.work.next h block h ≡ some y)
    → insert_into i block s ≡ some (link_block i block y s)
unfolding insert_into
insert_into-result s i block y ne found = rw (==-false (s.buddy_system_list i) 0 ne, found) refl

insert_into-head :
    (s : Blocks) (i block : ℕ) (r : List ℕ)
    → (let xs = s.buddy_system_list i ∷ r in
        ListHolds s i xs
        → block ≢ 0
        → has block xs ≡ false
        → length r < sram_size
        → IntoList s i block xs)
insert_into-head s i block r held nb out few =
    let h = s.buddy_system_list i in
    let y = stop s.start h block (h ∷ r) in
    let (refl_ring, distinct, no_null, chain) = held.ring in
    let nh : h ≢ 0 = ground arith in
    let found = find_next-stop sram_size s.start s.work h block h r chain distinct.0 few in
    let (links, same_start, same_size) = link_block-same s i block y in
    let placed = insert_before-place s.start s.work h block r held.ring out nb in
    record {
      after = link_block i block y s;
      result = insert_into-result s i block y nh found;
      joined = record {
        holds = record {
          ring =
              subst₂ (λ l p. IsRing l p (place s.start block (h ∷ r))) (sym links)
                (sym (link_block-head s i block y)) placed;
          sorted =
              subst (λ f. Sorted f (place s.start block (h ∷ r))) (sym same_start)
                (place-Sorted s.start block (h ∷ r) held.sorted);
        };
        others = λ j ne. link_block-others s i block y j ne;
        spares = λ x o.
            subst (λ (l : Links). (l.next x ≡ s.work.next x) × (l.previous x ≡ s.work.previous x))
              (sym links) (insert_before-spares s.start s.work h block r x held.ring o);
      };
      start = same_start;
      size = same_size;
    }

insert_into-place :
    (s : Blocks) (i block : ℕ) (xs : List ℕ)
    → ListHolds s i xs
    → block ≢ 0
    → has block xs ≡ false
    → length xs ≤ sram_size
    → IntoList s i block xs
insert_into-place s i block [] held nb out few = insert_into-empty s i block held nb
insert_into-place s i block (h ∷ r) held nb out few =
    subst (λ x. ListHolds s i (x ∷ r) → has block (x ∷ r) ≡ false → IntoList s i block (x ∷ r))
      (held.ring).0 (λ held' out'. insert_into-head s i block r held' nb out' (omega arith)) held
      out

-- The list for a size: a number has one highest bit.
pub same_bit : (n a b : ℕ) → 2 ^ a ≤ n → n < 2 ^ (a + 1) → 2 ^ b ≤ n → n < 2 ^ (b + 1) → a ≡ b
same_bit n a b la ha lb hb = elim (Bool-cases (a == b)) [
  | inl e ↦ ground arith
  | inr e ↦ elim (Bool-cases (ltb a b)) [
    | inl lt ↦ let p = pow_at_most (a + 1) b (ground arith) in absurd (omega arith)
    | inr ge ↦ let p = pow_at_most (b + 1) a (ground arith) in absurd (omega arith)
  ]
]

-- What `memory_block_insert` leaves: the block, its size rounded up to a power of two, is in list
-- `i`.
pub record Inserted (s : Blocks) (i block : ℕ) (xs : List ℕ) : Type 0 where
  pub after : Blocks
  pub result : memory_block_insert block s ≡ some (0, after)
  pub joined : Joined s i block xs after
  pub rounded : ℕ
  pub covers : s.size block % 2 ^ 31 ≤ rounded
  pub sizes : after.size ≡ update s.size block rounded

insert-step :
    (s : Blocks) (block rounded bit i : ℕ) (after : Blocks)
    → block ≢ 0
    → s.refered_number block ≡ 0
    → normalize_size (s.size block) ≡ some (rounded, bit)
    → sub32 bit 12 ≡ i
    → (let s1 = record s { size = update s.size block rounded; slob = update s.slob block 0 } in
        insert_into i block s1 ≡ some after)
    → memory_block_insert block s ≡ some (0, after)
unfolding memory_block_insert
insert-step s block rounded bit i after nb free norm list done =
    rw (==-false block 0 nb, ==-true (s.refered_number block) 0 free, norm, list, done) refl

-- A block that is in no use and in no list, whose size without KMEM_MASK has i + 12 as its highest
-- bit, is put into list `i`, one of
-- the eight: before the first block of a higher address, at the end where there is
-- none. The list stays a ring in the order of the addresses, with its lowest block as its head; no
-- other list changes; and the block's size is rounded up.
pub memory_block_insert-place :
    (s : Blocks) (i block : ℕ) (xs : List ℕ)
    → ListHolds s i xs
    → block ≢ 0
    → s.refered_number block ≡ 0
    → has block xs ≡ false
    → length xs ≤ sram_size
    → i < list_length
    → 2 ^ (i + 12) ≤ s.size block % 2 ^ 31
    → s.size block % 2 ^ 31 < 2 ^ (i + 13)
    → Inserted s i block xs
memory_block_insert-place s i block xs held nb free out few small low high =
    let one = pow_at_most 0 (i + 12) (omega arith) in
    let next : i + 13 ≡ i + 12 + 1 = omega arith in
    let norm = normalize_size-least (s.size block) (omega arith) in
    let bit : norm.bit ≡ i + 12 =
      same_bit (s.size block % 2 ^ 31) norm.bit (i + 12) norm.low norm.high low
        (subst (λ e. s.size block % 2 ^ 31 < 2 ^ e) next high) in
    let s1 = record s { size = update s.size block norm.rounded; slob = update s.slob block 0 } in
    let into =
      insert_into-place s1 i block xs (record { ring = held.ring; sorted = held.sorted }) nb out
        few in
    let j = into.joined in
    record {
      after = into.after;
      result =
          insert-step s block norm.rounded norm.bit i into.after nb free norm.result (omega arith)
            into.result;
      joined = record { holds = j.holds; others = j.others; spares = j.spares };
      rounded = norm.rounded;
      covers = norm.covers;
      sizes = into.size;
    }
