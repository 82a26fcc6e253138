-- ===== src/Area/Table.antt =====
-- memory_manage/memory_tool.c: the table `ma_info` of what is allocated, and what is given back.
pub mod Free
use stm32_os.Common.{
  ℕ, zero, suc, ◌+◌, ◌-◌, Option, none, some, ◌&&◌, ◌||◌, ◌==◌, leb, ltb, if◌then◌else◌, nonzero,
  update,
}
use stm32_os.Port.{add32, sub32}
use stm32_os.Area.{AllocInfo, Area, short, memory_fragment_insert}

-- The index, of `count` ones from `index` on, of the entry with this offset.
pub find_entry : (count index offset : ℕ) → (ℕ → AllocInfo) → Option ℕ
find_entry zero index offset ma = none
find_entry (suc count) index offset ma =
    let later = find_entry count (index + 1) offset ma in
    if (ma index).start_offset_in_page == offset then some index else later

-- `memory_alloc_info_find`: the index of the entry.
pub memory_alloc_info_find : (ptr : ℕ) → Area → Option ℕ
memory_alloc_info_find ptr a = find_entry a.allocate_number 0 (sub32 ptr a.start_address) a.ma_info

-- The inner loop of `memory_alloc_info_delete`: `count` entries from `index` on move down.
pub move_down : (count index : ℕ) → (ℕ → AllocInfo) → ℕ → AllocInfo
move_down zero index ma = ma
move_down (suc count) index ma = move_down count (index + 1) (update ma index (ma (index + 1)))

pub memory_alloc_info_delete : (ptr : ℕ) → Area → AllocInfo × Area
memory_alloc_info_delete ptr a =
    let nothing : AllocInfo = record { length = 0; start_offset_in_page = 0 } in
    elim (memory_alloc_info_find ptr a) [
      | none ↦ (nothing, a)
      | some index ↦ (
        a.ma_info index,
        record a {
          ma_info = move_down (a.allocate_number - index) index a.ma_info;
          allocate_number = sub32 a.allocate_number 1;
        },
      )
    ]

-- What `memory_free` does with the space of a deleted entry.
pub give_back : AllocInfo → Area → Option Area
give_back info a =
    if a.allocate_number == 0
    then some (record a { max_fragment_offset = 0; content_area_start = short a.size })
    else if a.content_area_start == info.start_offset_in_page
    then some (record a {
      content_area_start =
          let lowest = a.ma_info (sub32 a.allocate_number 1) in lowest.start_offset_in_page;
    })
    else memory_fragment_insert info.start_offset_in_page info.length a

-- The size that was freed, or 0. `none` means that a loop over the fragments ran out of fuel.
pub memory_free : (ptr : ℕ) → Area → Option (ℕ × Area)
memory_free ptr a =
    let (info, a1) = memory_alloc_info_delete ptr a in
    if (info.start_offset_in_page == 0) || (info.length == 0)
    then some (0, a1)
    else elim (give_back info a1) [ none ↦ none | some a2 ↦ some (info.length, a2) ]

-- The index before which `memory_alloc_info_insert` puts an entry, of `count` ones from `index` on.
pub find_place : (count index offset : ℕ) → (ℕ → AllocInfo) → ℕ
find_place zero index offset ma = index
find_place (suc count) index offset ma =
    let later = find_place count (index + 1) offset ma in
    if ltb (ma index).start_offset_in_page offset then index else later

-- Its second loop: `count` entries up to `top` move up.
pub move_up : (count top : ℕ) → (ℕ → AllocInfo) → ℕ → AllocInfo
move_up zero top ma = ma
move_up (suc count) top ma = move_up count (top - 1) (update ma top (ma (top - 1)))

-- It leaves `allocate_number` as it is.
pub memory_alloc_info_insert : AllocInfo → Area → Area
memory_alloc_info_insert info a =
    let n = a.allocate_number in
    let index = find_place n 0 info.start_offset_in_page a.ma_info in
    record a { ma_info = update (move_up (n - index) n a.ma_info) index info }

-- A fragment between the end of an entry and the next address that is in use. Its size is an
-- `unsigned short`.
pub insert_between : (entry : AllocInfo) → (limit : ℕ) → Area → Option Area
insert_between entry limit a =
    let stop = entry.start_offset_in_page + entry.length in
    if ltb stop limit
    then memory_fragment_insert (short stop) (short (sub32 limit (short stop))) a
    else some a

-- The for loop of `memory_fragment_merge`, of `count` rounds from `index` on. A fragment is made
-- where the entry ends behind the start of the entry before it.
pub merge_entries : (count index : ℕ) → Area → Option Area
merge_entries zero index a = some a
merge_entries (suc count) index a =
    let entry = a.ma_info index in
    let above = (a.ma_info (index - 1)).start_offset_in_page in
    let stop = entry.start_offset_in_page + entry.length in
    let made = memory_fragment_insert (short stop) (short (sub32 above (short stop))) a in
    if ltb above stop
    then (elim made [ none ↦ none | some a' ↦ merge_entries count (index + 1) a' ])
    else merge_entries count (index + 1) a

pub memory_fragment_merge : Area → Option Area
memory_fragment_merge a =
    let a1 = record a { max_fragment_offset = 0 } in
    if a.max_fragment_offset == 0 then some a else elim (insert_between (a.ma_info 0) a.size a1) [
      | none ↦ none
      | some a2 ↦ merge_entries (a.allocate_number - 1) 1 a2
    ]
