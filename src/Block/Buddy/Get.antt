-- ===== src/Block/Buddy/Get.antt =====
-- memory_block_get where the list of the size has a block.
use stm32_os.Common.{
  ℕ, suc, ◌+◌, ◌-◌, ◌%◌, ◌^◌, ◌≤◌, ◌<◌, ◌≡◌, ◌≢◌, refl, ap, ◌∙◌, subst, List, ◌∷◌, some, arith,
  ◌==◌, ==-true, ==-false, if◌then◌else◌, true, leb, ltb, erase,
}
use stm32_os.Port.{sub32}
use stm32_os.Ring.{unlink}
use stm32_os.Ring.Chain.{IsRing}
use stm32_os.Ring.Unlink.{head_without, unlink-IsRing}
use stm32_os.Block.{Blocks}
use stm32_os.Block.Buddy.{
  list_length, take_head, split_down, find_list, memory_block_get, normalize_size,
}
use stm32_os.Block.Buddy.Round.{normalize_size-least, pow_at_most}
use stm32_os.Block.Buddy.Order.{Sorted-tail}
use stm32_os.Block.Buddy.Insert.{ListHolds, same_bit}

-- The lowest block of list `i` was taken out of it.
pub record Taken (s : Blocks) (i block : ℕ) (xs : List ℕ) (s' : Blocks) : Type 0 where
  pub holds : ListHolds s' i xs
  pub free : s'.refered_number block ≡ 0
  pub others : (j : ℕ) → j ≢ i → s'.buddy_system_list j ≡ s.buddy_system_list j
  pub same : (s'.size ≡ s.size) × (s'.start ≡ s.start) × (s'.end ≡ s.end)

erase_head : (x : ℕ) (xs : List ℕ) → erase x (x ∷ xs) ≡ xs
erase_head x xs = rw (==-true x x refl) refl

take_head-Taken :
    (s : Blocks) (i : ℕ) (xs : List ℕ)
    → ListHolds s i (s.buddy_system_list i ∷ xs)
    → Taken s i (s.buddy_system_list i) xs (take_head i s)
unfolding take_head
take_head-Taken s i xs held =
    let block = s.buddy_system_list i in
    let here : head_without block block s.work
        ≡ (if s.work.next block == block then 0 else s.work.next block) =
      rw (==-true block block refl) refl in
    let out = unlink-IsRing s.work block block (block ∷ xs) held.ring (ground arith) in
    record {
      holds = record {
        ring = rw (==-true i i refl) (
            subst
              (λ ys.
                IsRing (unlink block s.work)
                  (if s.work.next block == block then 0 else s.work.next block) ys)
              (erase_head block xs)
              (subst (λ p. IsRing (unlink block s.work) p (erase block (block ∷ xs))) here out));
        sorted = Sorted-tail s.start block xs held.sorted;
      };
      free = rw (==-true block block refl) refl;
      others = λ j ne. ground arith;
      same = (refl, refl, refl);
    }

-- What `memory_block_get` gives where it finds a block of the list.
pub record Got (s : Blocks) (size i block : ℕ) (xs : List ℕ) : Type 0 where
  pub after : Blocks
  pub result : memory_block_get size s ≡ some (block, after)
  pub taken : Taken s i block xs after

find_list-here : (n i : ℕ) (lists : ℕ → ℕ) → lists i ≢ 0 → find_list (suc n) i lists ≡ some i
unfolding find_list
find_list-here n i lists ne = rw (==-false (lists i) 0 ne) refl

get-step :
    (s : Blocks) (size rounded bit i : ℕ)
    → 0x1000 ≤ size
    → normalize_size size ≡ some (rounded, bit)
    → sub32 bit 12 ≡ i
    → i < list_length
    → s.buddy_system_list i ≢ 0
    → memory_block_get size s ≡ some (s.buddy_system_list i, take_head i s)
unfolding memory_block_get split_down
get-step s size rounded bit i large norm list small ne =
    let big : leb 0x1000 size ≡ true = ground arith in
    let inside : ltb i list_length ≡ true = ground arith in
    let rest : list_length - i ≡ suc (7 - i) = omega arith in
    let found : find_list (list_length - i) i s.buddy_system_list ≡ some i =
      ap (λ n. find_list n i s.buddy_system_list) rest
      ∙ find_list-here (7 - i) i s.buddy_system_list ne in
    let none_left : i - i ≡ 0 = omega arith in
    rw (big, norm, list, inside, found, list, none_left) refl

get-head :
    (s : Blocks) (size i : ℕ) (xs : List ℕ)
    → ListHolds s i (s.buddy_system_list i ∷ xs)
    → i < list_length
    → 2 ^ (i + 12) ≤ size
    → size < 2 ^ (i + 13)
    → Got s size i (s.buddy_system_list i) xs
get-head s size i xs held small low high =
    let most = pow_at_most (i + 13) 20 (omega arith) in
    let least = pow_at_most 12 (i + 12) (omega arith) in
    let n : size % 2 ^ 31 ≡ size = omega arith in
    let norm = normalize_size-least size (omega arith) in
    let next : i + 13 ≡ i + 12 + 1 = omega arith in
    let bit : norm.bit ≡ i + 12 =
      same_bit (size % 2 ^ 31) norm.bit (i + 12) norm.low norm.high (omega arith)
        (subst (λ e. size % 2 ^ 31 < 2 ^ e) next (omega arith)) in
    let ne : s.buddy_system_list i ≢ 0 = ground (arith, held.ring.2) in
    record {
      after = take_head i s;
      result =
          get-step s size norm.rounded norm.bit i (omega arith) norm.result (omega arith) small ne;
      taken = take_head-Taken s i xs held;
    }

-- A request whose highest bit is i + 12, where list `i` has blocks: the block of the lowest address
-- is given, in no use, and its list holds the others in their order. The sizes and the bounds of
-- all blocks, and the heads of the other lists, are as before.
pub memory_block_get-lowest :
    (s : Blocks) (size i block : ℕ) (xs : List ℕ)
    → ListHolds s i (block ∷ xs)
    → i < list_length
    → 2 ^ (i + 12) ≤ size
    → size < 2 ^ (i + 13)
    → Got s size i block xs
memory_block_get-lowest s size i block xs held small low high =
    subst (λ b. ListHolds s i (b ∷ xs) → Got s size i b xs) held.ring.0
      (λ held'. get-head s size i xs held' small low high) held
