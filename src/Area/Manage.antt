-- ===== src/Area/Manage.antt =====
-- memory_manage/memory.c: the memory areas.
pub mod Add
use stm32_os.Common.{
  ℕ, zero, suc, ◌+◌, ◌-◌, ◌%◌, Bool, false, Option, none, some, ◌&&◌, ◌||◌, ◌==◌, leb, ltb,
  if◌then◌else◌, nonzero, update,
}
use stm32_os.Port.{os_success, add32, sub32}
use stm32_os.Area.{Area, memory_alloc}
use stm32_os.Area.Table.{memory_free, memory_fragment_merge}

-- `struct memory_manage`
pub record MemoryManage : Type 0 where
  pub total_size : ℕ
  pub memory_area_num : ℕ
  pub area : ℕ → Area

abbrev pub max_memory_area_num : ℕ
max_memory_area_num = 4

abbrev pub area_align : ℕ
area_align = 0x1000

abbrev pub os_failed : ℕ
os_failed = 1

-- Whether one of the two addresses lies in one of `count` areas from `index` on, the ends included.
pub touches : (count index start_address end_address : ℕ) → (ℕ → Area) → Bool
touches zero index start stop area = false
touches (suc count) index start stop area =
    let a = area index in
    let later = touches count (index + 1) start stop area in
    (leb a.start_address start && leb start a.end_address)
    || (leb a.start_address stop && leb stop a.end_address)
    || later

-- `start_address` rounded up to a multiple of AREA_ALIGN.
pub align_up : ℕ → ℕ
align_up start =
    if nonzero (start % area_align) then add32 (start - start % area_align) area_align else start

pub memory_manage_area_add : (start_address end_address : ℕ) → MemoryManage → ℕ × MemoryManage
memory_manage_area_add start_address end_address m =
    let start = align_up start_address in
    let stop = end_address - end_address % area_align in
    let n = m.memory_area_num in
    let added = record (m.area n) {
      start_address = start;
      end_address = stop;
      size = stop - start;
    } in
    if leb max_memory_area_num n || leb stop start || touches n 0 start stop m.area
    then (os_failed, m)
    else (os_success, record m { area = update m.area n added; memory_area_num = n + 1 })

-- The for loop of `memory_manage_init`, of `count` rounds from `index` on.
pub init_areas : (count index : ℕ) → MemoryManage → MemoryManage
init_areas zero index m = m
init_areas (suc count) index m =
    let a = m.area index in
    init_areas count (index + 1) (record m {
      total_size = add32 m.total_size a.size;
      area =
          update m.area index
            (record a { allocate_number = 0; content_area_start = 0; max_fragment_offset = 0 });
    })

pub memory_manage_init : MemoryManage → ℕ × MemoryManage
memory_manage_init m = (os_success, init_areas m.memory_area_num 0 (record m { total_size = 0 }))

-- `size` rounded up to a multiple of 8.
pub align_size : ℕ → ℕ
align_size size = if nonzero (size % 8) then add32 (size - size % 8) 8 else size

-- The for loop of `memory_manage_allocate`, of `count` rounds from `index` on. The result is the
-- address, or 0 for NULL; `none` means that a loop over the fragments ran out of fuel.
pub allocate_from : (count index size : ℕ) → MemoryManage → Option (ℕ × MemoryManage)
allocate_from zero index size m = some (0, m)
allocate_from (suc count) index size m = elim (memory_alloc size (m.area index)) [
  | none ↦ none
  | some (ptr, a) ↦
      let rest = allocate_from count (index + 1) size (record m { area = update m.area index a }) in
      let counted = record a { alloc_size = add32 a.alloc_size size } in
      if nonzero ptr then some (ptr, record m { area = update m.area index counted }) else rest
]

pub memory_manage_allocate : (size : ℕ) → MemoryManage → Option (ℕ × MemoryManage)
memory_manage_allocate size m =
    if size == 0 then some (0, m) else allocate_from m.memory_area_num 0 (align_size size) m

-- The first of `count` areas from `index` on in which the address lies.
pub area_of : (count index ptr : ℕ) → (ℕ → Area) → Option ℕ
area_of zero index ptr area = none
area_of (suc count) index ptr area =
    let a = area index in
    let later = area_of count (index + 1) ptr area in
    if leb a.start_address ptr && ltb ptr a.end_address then some index else later

pub memory_manage_free : (ptr : ℕ) → MemoryManage → Option MemoryManage
memory_manage_free address m =
    let ptr = address - address % 8 in
    elim (area_of m.memory_area_num 0 ptr m.area) [
      | none ↦ some m
      | some index ↦ elim (memory_free ptr (m.area index)) [
        | none ↦ none
        | some (freed, a) ↦
            let counted = record a { alloc_size = sub32 a.alloc_size freed } in
            some (record m { area = update m.area index counted })
      ]
    ]

-- `memory_manage_sort_out` of the area with this index.
pub memory_manage_sort_out : (index : ℕ) → MemoryManage → Option MemoryManage
memory_manage_sort_out index m = elim (memory_fragment_merge (m.area index)) [
  | none ↦ none
  | some a ↦ some (record m { area = update m.area index a })
]
