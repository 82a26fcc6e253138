-- ===== src/Cache.antt =====
-- memory_manage/memory_kmem.c: the caches (KERNEL_MEMORY_CACHE) that are carved out of blocks. A
-- block's caches are a circular list, `slob`, in the order of their addresses.
pub mod Layout
pub mod Holds
pub mod Get
pub mod Free
mod Tests
use stm32_os.Common.{
  ℕ, zero, suc, ◌+◌, ◌%◌, ◌^◌, Option, none, some, ◌∷◌, ◌&&◌, not, ◌==◌, leb, ltb, if◌then◌else◌,
  nonzero, update,
}
use stm32_os.Port.{sram_size, add32, sub32}
use stm32_os.Ring.{insert_before, self_link, unlink}
use stm32_os.Block.{Blocks, info_block_get, info_block_insert}
use stm32_os.Block.Buddy.{memory_block_get, memory_block_insert}
use stm32_os.Block.Sort.{in_use}

-- `size |= KMEM_MASK` and `size &= ~KMEM_MASK`
abbrev pub mark : ℕ → ℕ
mark size = size % 2 ^ 31 + 2 ^ 31

abbrev pub unmark : ℕ → ℕ
unmark size = size % 2 ^ 31

-- INTERVAL, and the size of a KERNEL_MEMORY_CACHE: 8 words.
abbrev pub interval : ℕ
interval = 16

abbrev pub cache_size : ℕ
cache_size = 32

-- The first do-while loop of `kmem_get_from_block`: the first cache, from `kmem` on, that is large
-- enough and not in use, or 0 if there is none. The outer `none` means that the fuel ran out.
pub first_fit : ℕ → (sizes next : ℕ → ℕ) → (size slob kmem : ℕ) → Option ℕ
first_fit zero sizes next size slob kmem = none
first_fit (suc k) sizes next size slob kmem =
    let after = next kmem in
    let more = first_fit k sizes next size slob after in
    if leb size (sizes kmem) && not (in_use (sizes kmem))
    then some kmem
    else if after == slob
    then some 0
    else more

-- A cache that was found is used again.
pub reuse : (kmem : ℕ) → Blocks → Blocks
reuse kmem s =
    let block = s.owner kmem in
    record s {
      work = self_link kmem s.work;
      size = update s.size kmem (mark (s.size kmem));
      refered_number = update s.refered_number block (add32 (s.refered_number block) 1);
    }

-- A new cache is made behind those of the block.
pub carve : (block size kmem : ℕ) → Blocks → Blocks
carve block size kmem s =
    let slob = s.slob block in
    let first = add32 kmem cache_size in
    let s1 = record s {
      owner = update s.owner kmem block;
      size = update s.size kmem (mark size);
      start = update s.start kmem first;
      end = update s.end kmem (add32 first size);
      refered_number = update s.refered_number block (add32 (s.refered_number block) 1);
      available_storage =
          update s.available_storage block
            (sub32 (s.available_storage block) (size + cache_size + interval));
      work = self_link kmem s.work;
    } in
    if nonzero slob
    then record s1 { location = insert_before slob kmem s1.location }
    else record s1 { slob = update s1.slob block kmem; location = self_link kmem s1.location }

-- A block with hardly any storage left leaves its list.
pub retire : (block : ℕ) → Blocks → Option Blocks
retire block s =
    let l = unlink block s.work in
    let s1 = record s { work = l } in
    let next = l.next s.slob_partial in
    if block == s.slob_current
    then (if nonzero s.slob_partial
        then some (record s1 {
          slob_current = s.slob_partial;
          slob_partial = if next == s.slob_partial then 0 else next;
        })
        else elim (memory_block_get 0x1000 s1) [
          | none ↦ none
          | some (block', s2) ↦ some (record s2 { slob_current = block' })
        ])
    else if block == s.slob_partial
    then some (record s1 { slob_partial = if next == l.next next then 0 else next })
    else some s1

-- What `kmem_get_from_block` does where no cache of the block can be used again.
pub get_new : (block size : ℕ) → Blocks → Option (ℕ × Blocks)
get_new block size s =
    let kmem = add32 (sub32 (s.end block) (s.available_storage block)) interval in
    if leb (add32 size (cache_size + interval)) (s.available_storage block)
    then some (kmem, carve block size kmem s)
    else if leb (s.available_storage block) 0x40
    then (elim (retire block s) [ none ↦ none | some s' ↦ some (0, s') ])
    else some (0, s)

-- The address of the cache, or 0 for NULL. `none` means that a loop ran out of fuel.
pub kmem_get_from_block : (block size : ℕ) → Blocks → Option (ℕ × Blocks)
kmem_get_from_block block size s =
    let slob = s.slob block in
    if nonzero slob
    then (elim (first_fit sram_size s.size s.location.next size slob slob) [
      | none ↦ none
      | some kmem ↦ if nonzero kmem then some (kmem, reuse kmem s) else get_new block size s
    ])
    else get_new block size s

-- The do-while loop of `kmem_malloc` over the partial blocks, at `block`.
pub get_from_partial : ℕ → (block size : ℕ) → Blocks → Option (ℕ × Blocks)
get_from_partial zero block size s = none
get_from_partial (suc k) block size s = elim (kmem_get_from_block block size s) [
  | none ↦ none
  | some (kmem, s') ↦
      let after = s'.work.next block in
      let more = get_from_partial k after size s' in
      if nonzero kmem
      then some (kmem, s')
      else if after == s'.slob_partial
      then some (0, s')
      else more
]

-- A new block joins the partial ones.
pub join_partial : (block : ℕ) → Blocks → Blocks
join_partial block s =
    if nonzero block
    then (if nonzero s.slob_partial
        then record s { work = insert_before s.slob_partial block s.work }
        else record s { slob_partial = block; work = self_link block s.work })
    else s

-- The end of `kmem_malloc`: a new block is got, and the cache is carved out of it.
pub get_from_new_block : (size : ℕ) → Blocks → Option (ℕ × Blocks)
get_from_new_block size s = elim (memory_block_get 0x1000 s) [
  | none ↦ none
  | some (block, s1) ↦ elim (kmem_get_from_block block size s1) [
    | none ↦ none
    | some (kmem, s2) ↦ some (kmem, join_partial block s2)
  ]
]

-- `kmem_malloc` of less than 0x1000 bytes.
pub malloc_small : (size : ℕ) → Blocks → Option (ℕ × Blocks)
malloc_small size s = elim (kmem_get_from_block s.slob_current size s) [
  | none ↦ none
  | some (kmem, s1) ↦
      let partial =
        if nonzero s1.slob_partial
        then get_from_partial sram_size s.slob_partial size s1
        else some (0, s1) in
      if nonzero kmem then some (kmem, s1) else elim partial [
        | none ↦ none
        | some (kmem', s2) ↦ if nonzero kmem' then some (kmem', s2) else get_from_new_block size s2
      ]
]

-- `kmem_malloc` of 0x1000 bytes or more: a block alone. The size that is given to `memset` has
-- KMEM_MASK in it.
pub malloc_large : (size : ℕ) → Blocks → Option (ℕ × Blocks)
malloc_large size s =
    let (kmem, s1) = info_block_get s in
    elim (memory_block_get size s1) [
      | none ↦ none
      | some (block, s2) ↦
          let marked = mark (s2.size block) in
          some (
            kmem,
            record s2 {
              owner = update s2.owner kmem block;
              refered_number = update s2.refered_number block (add32 (s2.refered_number block) 1);
              available_storage = update s2.available_storage block 0;
              slob = update s2.slob block kmem;
              end = update s2.end kmem (s2.end block);
              start = update s2.start kmem (s2.start block);
              size = update s2.size kmem marked;
              location = self_link kmem s2.location;
              work = self_link kmem s2.work;
              clears = (s2.start block, marked) ∷ s2.clears;
            },
          )
    ]

-- The size that is looked for: where it and the structure need 0x1000 bytes, 0x1000.
abbrev pub rounded : ℕ → ℕ
rounded size = if ltb size 0x1000 && leb 0x1000 (size + cache_size) then 0x1000 else size

pub kmem_malloc : (size : ℕ) → Blocks → Option (ℕ × Blocks)
kmem_malloc size s =
    if size == 0
    then some (0, s)
    else if leb 0x1000 (rounded size)
    then malloc_large (rounded size) s
    else malloc_small (rounded size) s

-- `kmem_free` of a cache whose block has no other in use.
pub give_block : (block : ℕ) → Blocks → Option Blocks
give_block block s =
    let l = unlink block s.work in
    let s1 = record s {
      slob = update s.slob block 0;
      available_storage = update s.available_storage block (s.size block);
      work = l;
    } in
    let next = l.next s.slob_partial in
    let s2 =
      if block == s.slob_partial
      then record s1 { slob_partial = if next == l.next next then 0 else next }
      else s1 in
    if block == s.slob_current
    then some s1
    else elim (memory_block_insert block s2) [ none ↦ none | some (_, s3) ↦ some s3 ]

-- What `kmem_free` does with a cache of 0x1000 bytes or more, and with a smaller one.
pub free_large : (kmem : ℕ) → Blocks → Option Blocks
free_large kmem s =
    let block = s.owner kmem in
    elim (memory_block_insert block
      (record s { available_storage = update s.available_storage block (s.size block) })) [
        | none ↦ none
        | some (_, s') ↦ some (info_block_insert kmem s').1
      ]

pub free_small : (kmem : ℕ) → Blocks → Option Blocks
free_small kmem s =
    let block = s.owner kmem in
    let s1 = record s { work = unlink kmem s.work } in
    if s.refered_number block == 0 then give_block block s1 else some s1

-- `none` means that a loop ran out of fuel.
pub kmem_free : (kmem : ℕ) → Blocks → Option (ℕ × Blocks)
kmem_free kmem s =
    let block = s.owner kmem in
    let s1 = record s {
      refered_number = update s.refered_number block (sub32 (s.refered_number block) 1);
      size = update s.size kmem (unmark (s.size kmem));
    } in
    if nonzero kmem && in_use (s.size kmem)
    then (elim (if leb 0x1000 (s1.size kmem) then free_large kmem s1 else free_small kmem s1) [
      | none ↦ none
      | some s' ↦ some (0, s')
    ])
    else some (0xFFFFFFF, s)
