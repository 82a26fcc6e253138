-- ===== src/Block/Sort.antt =====
-- memory_manage/memory_manage.c: the memory at the start, and what goes back to the unused memory.
use stm32_os.Common.{
  ℕ, zero, suc, ◌+◌, Bool, Option, none, some, ◌&&◌, ◌||◌, ◌==◌, leb, ltb, if◌then◌else◌, nonzero,
  update,
}
use stm32_os.Port.{sram_size, sub32}
use stm32_os.Ring.{unlink}
use stm32_os.Block.{Blocks, info_block_insert, memory_block_create}
use stm32_os.Block.Buddy.{list_length}

-- SRAM_END
abbrev pub sram_end : ℕ
sram_end = 0x20005000

-- KMEM_MASK, bit 31 of a size, marks a KERNEL_MEMORY_CACHE that is in use.
abbrev pub in_use : ℕ → Bool
in_use size = leb 0x80000000 size

-- The argument `used_end` is `__RAM_segment_used_end__`, an address that the linker gives.
pub memory_manage_initialize : (used_end : ℕ) → Blocks → Blocks
memory_manage_initialize used_end s =
    let s1 = record s {
      unused_front = used_end;
      unused_back = sram_end;
      buddy_system_list = λ i. if ltb i list_length then 0 else s.buddy_system_list i;
      free_info_block = 0;
    } in
    let (block, s2) = memory_block_create 0x1000 s1 in
    record s2 { slob_current = block; slob_partial = 0 }

-- The for loop of `memory_block_slob_recyc`: where it stops.
pub last_in_use : ℕ → (size previous : ℕ → ℕ) → (slob kmem : ℕ) → Option ℕ
last_in_use zero size previous slob kmem = none
last_in_use (suc k) size previous slob kmem =
    let more = last_in_use k size previous slob (previous kmem) in
    if (kmem == slob) || in_use (size kmem) then some kmem else more

-- `memory_block_slob_recyc`: the caches at the end of a block that are not in use are given up.
pub memory_block_slob_recyc : ℕ → Blocks → Option Blocks
memory_block_slob_recyc block s =
    let slob = s.slob block in
    let cut = λ (kmem : ℕ). record s {
      location = record {
        previous = update s.location.previous slob kmem;
        next = update s.location.next kmem slob;
      };
      available_storage = update s.available_storage block (sub32 (s.end block) (s.end kmem));
    } in
    if nonzero block && nonzero slob
    then (elim (last_in_use sram_size s.size s.location.previous slob (s.location.previous slob)) [
      | none ↦ none
      | some kmem ↦ some (cut kmem)
    ])
    else some s

-- The do-while loop of `memory_manage_sort` over the partial blocks.
pub recyc_partial : ℕ → (block : ℕ) → Blocks → Option Blocks
recyc_partial zero block s = none
recyc_partial (suc k) block s = elim (memory_block_slob_recyc block s) [
  | none ↦ none
  | some s' ↦
      let after = s'.work.next block in
      let more = recyc_partial k after s' in if after == s'.slob_partial then some s' else more
]

-- The head of list `i`, which lies at the end of the unused memory, becomes unused memory.
pub release_head : (i : ℕ) → Blocks → Blocks
release_head i s =
    let block = s.buddy_system_list i in
    let after = s.work.next block in
    let s1 =
      if after == block
      then record s { buddy_system_list = update s.buddy_system_list i 0 }
      else record s {
        buddy_system_list = update s.buddy_system_list i after;
        work = unlink block s.work;
      } in
    (info_block_insert block (record s1 { unused_back = s1.end block })).1

-- The for loop of `memory_manage_sort`, at list `i`: it begins again after each release.
pub release_all : ℕ → (i : ℕ) → Blocks → Option Blocks
release_all zero i s = none
release_all (suc k) i s =
    let block = s.buddy_system_list i in
    let again = release_all k 0 (release_head i s) in
    let on = release_all k (i + 1) s in
    if ltb i list_length
    then (if nonzero block && (s.start block == s.unused_back) then again else on)
    else some s

pub memory_manage_sort : Blocks → Option Blocks
memory_manage_sort s = elim (memory_block_slob_recyc s.slob_current s) [
  | none ↦ none
  | some s1 ↦
      elim (if nonzero s1.slob_partial
        then recyc_partial sram_size s1.slob_partial s1
        else some s1) [ none ↦ none | some s2 ↦ release_all sram_size 0 s2 ]
]
