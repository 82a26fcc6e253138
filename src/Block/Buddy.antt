-- ===== src/Block/Buddy.antt =====
-- memory_manage/memory_block.c: the lists of free blocks by size. List `i` is for the blocks of
-- 2 ^ (i + 12) bytes, from the lowest address up.
pub mod Round
pub mod Order
pub mod Insert
pub mod Get
use stm32_os.Common.{
  ℕ, zero, suc, ◌+◌, ◌-◌, ◌*◌, ◌/◌, ◌%◌, ◌^◌, Option, none, some, ◌&&◌, ◌==◌, leb, ltb,
  if◌then◌else◌, nonzero, update,
}
use stm32_os.Port.{sram_size, bad_argument, add32, sub32}
use stm32_os.Ring.{insert_before, self_link, unlink}
use stm32_os.Block.{Blocks, info_block_get, memory_block_create}

-- BUDDY_SYSTEM_LIST_LENGTH
abbrev pub list_length : ℕ
list_length = 8

-- The for loop of NORMALIZE_SIZE: `size` is shifted until its highest bit is bit 31. `none` means
-- that the fuel ran out; for size 0 the loop of the source does not end.
pub shift_up : ℕ → (highest_bit size : ℕ) → Option (ℕ × ℕ)
shift_up zero highest_bit size = none
shift_up (suc k) highest_bit size =
    let more = shift_up k (sub32 highest_bit 1) (size * 2 % 2 ^ 32) in
    if leb 0x80000000 size then some (highest_bit, size) else more

-- NORMALIZE_SIZE: the new size and the highest bit.
pub normalize_size : ℕ → Option (ℕ × ℕ)
normalize_size size = elim (shift_up 32 31 (size % 2 ^ 31)) [
  | none ↦ none
  | some (bit, rest) ↦ some (if nonzero (rest * 2 % 2 ^ 32) then 2 ^ (bit + 1) else 2 ^ bit, bit)
]

-- The do-while loop of `memory_block_insert` at `block_next`: where it stops.
pub find_next : ℕ → (start next : ℕ → ℕ) → (head block block_next : ℕ) → Option ℕ
find_next zero start next head block block_next = none
find_next (suc k) start next head block block_next =
    let after = next block_next in
    let more = find_next k start next head block after in
    if ltb (start block) (start block_next)
    then some block_next
    else if after == head
    then some after
    else more

-- What follows the loop.
pub link_block : (i block block_next : ℕ) → Blocks → Blocks
link_block i block block_next s =
    let head = s.buddy_system_list i in
    record s {
      buddy_system_list =
          if (block_next == head) && ltb (s.start block) (s.start block_next)
          then update s.buddy_system_list i block
          else s.buddy_system_list;
      work = insert_before block_next block s.work;
    }

-- `memory_block_insert` into list `i`.
pub insert_into : (i block : ℕ) → Blocks → Option Blocks
insert_into i block s =
    let head = s.buddy_system_list i in
    if head == 0
    then some (record s {
      buddy_system_list = update s.buddy_system_list i block;
      work = self_link block s.work;
    })
    else elim (find_next sram_size s.start s.work.next head block head) [
      | none ↦ none
      | some block_next ↦ some (link_block i block block_next s)
    ]

-- NORMALIZE_SIZE assigns to the size of the block. `none` means that a loop ran out of fuel.
pub memory_block_insert : ℕ → Blocks → Option (ℕ × Blocks)
memory_block_insert block s =
    if nonzero block && (s.refered_number block == 0)
    then (elim (normalize_size (s.size block)) [
      | none ↦ none
      | some (size, bit) ↦
          elim (insert_into (sub32 bit 12) block
            (record s { size = update s.size block size; slob = update s.slob block 0 })) [
              | none ↦ none
              | some s' ↦ some (0, s')
            ]
    ])
    else some (bad_argument, s)

-- The head of list `position` leaves it.
pub take_head : (position : ℕ) → Blocks → Blocks
take_head position s =
    let block = s.buddy_system_list position in
    let after = s.work.next block in
    record s {
      buddy_system_list = update s.buddy_system_list position (if after == block then 0 else after);
      work = unlink block s.work;
      refered_number = update s.refered_number block 0;
    }

-- The block is halved: the new one, `info`, is the lower half.
pub split_block : (block info : ℕ) → Blocks → Blocks
split_block block info s =
    let half = s.size block / 2 in
    record s {
      work = self_link info s.work;
      start = update (update s.start info (s.start block)) block (sub32 (s.end block) half);
      slob = update s.slob info 0;
      refered_number = update s.refered_number info 0;
      size = update (update s.size info half) block half;
      available_storage = update (update s.available_storage info half) block half;
      end = update s.end info (add32 (s.start block) half);
    }

-- The inner for loop of `memory_block_get`, from list `target + count` down to list `target`.
pub split_down : (count target : ℕ) → Blocks → Option (ℕ × Blocks)
split_down zero target s = some (s.buddy_system_list target, take_head target s)
split_down (suc count) target s =
    let position = target + suc count in
    let block = s.buddy_system_list position in
    let (info, s1) = info_block_get (take_head position s) in
    elim (memory_block_insert block (split_block block info s1)) [
      | none ↦ none
      | some (_, s2) ↦ elim (memory_block_insert info s2) [
        | none ↦ none
        | some (_, s3) ↦ split_down count target s3
      ]
    ]

-- The outer for loop: the first of `count` lists from `position` on that has a block.
pub find_list : (count position : ℕ) → (ℕ → ℕ) → Option ℕ
find_list zero position lists = none
find_list (suc count) position lists =
    let later = find_list count (position + 1) lists in
    if nonzero (lists position) then some position else later

-- The address of the block, or 0 for NULL. `none` means that a loop ran out of fuel.
pub memory_block_get : (size : ℕ) → Blocks → Option (ℕ × Blocks)
memory_block_get size s =
    if leb 0x1000 size
    then (elim (normalize_size size) [
      | none ↦ none
      | some (size', bit) ↦
          let target = sub32 bit 12 in
          if ltb target list_length
          then (elim (find_list (list_length - target) target s.buddy_system_list) [
            | none ↦ some (memory_block_create size' s)
            | some position ↦ split_down (position - target) target s
          ])
          else some (0, s)
    ])
    else some (0, s)
