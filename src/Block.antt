-- ===== src/Block.antt =====
-- memory_manage/memory_block.c: the list of free MEMORY_BLOCK structures and the creation of
-- blocks from memory that was never used. The fields of a MEMORY_BLOCK are functions of its
-- address. A KERNEL_MEMORY_CACHE has the same first five fields, and its structure may be one that
-- was a MEMORY_BLOCK before, so the two share these fields.
pub mod Info
pub mod Buddy
pub mod Sort
mod Tests
use stm32_os.Common.{ℕ, List, ◌+◌, ◌*◌, ◌%◌, ◌^◌, leb, ltb, if◌then◌else◌, nonzero, update}
use stm32_os.Port.{add32, sub32}
use stm32_os.Ring.{Links, insert_before, self_link, unlink}

-- `buddy_system_list` has `list_length` elements, and nothing stops `memory_block_insert` from
-- writing behind them, which is not modelled: it is used for list numbers below `list_length`.
pub record Blocks : Type 0 where
  pub size : ℕ → ℕ
  pub start : ℕ → ℕ
  pub end : ℕ → ℕ
  pub work : Links  -- work_next, work_previous
  pub available_storage : ℕ → ℕ
  pub refered_number : ℕ → ℕ
  pub slob : ℕ → ℕ
  pub location : Links  -- location_next, location_previous of a KERNEL_MEMORY_CACHE
  pub owner : ℕ → ℕ  -- of a KERNEL_MEMORY_CACHE
  pub buddy_system_list : ℕ → ℕ
  pub slob_current : ℕ
  pub slob_partial : ℕ
  pub clears : List (ℕ × ℕ)  -- the calls memset(p, 0, n), the last one first
  pub free_info_block : ℕ
  pub unused_front : ℕ  -- os_unused_memory_front_ptr
  pub unused_back : ℕ  -- os_unused_memory_back_ptr

-- A MEMORY_BLOCK is 32 bytes: 8 words. The result is its address, or 0 for NULL.
pub info_block_get : Blocks → ℕ × Blocks
info_block_get s =
    let free = s.free_info_block in
    let l = unlink free s.work in
    if nonzero free
    then (free, record s { work = l; free_info_block = l.next free })
    else if ltb (add32 s.unused_front 32) s.unused_back
    then (s.unused_front, record s { unused_front = add32 s.unused_front 32 })
    else (0, s)

pub info_block_insert : ℕ → Blocks → ℕ × Blocks
info_block_insert info s =
    let l = unlink info s.work in
    if nonzero s.free_info_block
    then (0, record s { work = insert_before s.free_info_block info l })
    else (0, record s { work = self_link info l; free_info_block = info })

-- The fields that `memory_block_create` sets, for a block at the end of the unused memory.
pub new_block : (block size : ℕ) → Blocks → Blocks
new_block block size s =
    let back = sub32 s.unused_back size in
    record s {
      size = update s.size block size;
      available_storage = update s.available_storage block size;
      refered_number = update s.refered_number block 0;
      end = update s.end block s.unused_back;
      unused_back = back;
      start = update s.start block back;
      slob = update s.slob block 0;
      work = self_link block s.work;
    }

pub memory_block_create : (size : ℕ) → Blocks → ℕ × Blocks
memory_block_create size s =
    let (block, s1) = info_block_get s in
    if leb 0x1000 size
    then (if leb size (sub32 s1.unused_back s1.unused_front)
        then (block, new_block block size s1)
        else (0, (info_block_insert block s1).1))
    else (0, s)
