-- ===== src/Area.antt =====
-- memory_manage/memory_tool.c: one memory area. Memory is given from its end downwards; what is
-- given is in the table `ma_info`, and what was given back between is a list of fragments. A
-- fragment's own structure stands at its offset: its fields are functions of the offset, and the
-- offset 0 is NULL.
pub mod Table
pub mod Manage
pub mod Fragments
pub mod Walk
pub mod Insert
pub mod Fit
pub mod Get
pub mod Top
mod Tests
use stm32_os.Common.{
  ℕ, zero, suc, ◌-◌, ◌*◌, ◌%◌, ◌^◌, Option, none, some, ◌&&◌, ◌||◌, ◌==◌, leb, ltb, if◌then◌else◌,
  nonzero, update,
}
use stm32_os.Port.{add32, sub32}

-- `unsigned short`
abbrev pub short : ℕ → ℕ
short n = n % 2 ^ 16

-- `struct memory_alloc_info`
pub record AllocInfo : Type 0 where
  pub length : ℕ  -- size
  pub start_offset_in_page : ℕ

-- `struct memory_area`, with the `struct memory_area_header` at its start and the fragments.
pub record Area : Type 0 where
  pub alloc_size : ℕ
  pub size : ℕ
  pub start_address : ℕ
  pub end_address : ℕ
  pub content_area_start : ℕ
  pub max_fragment_offset : ℕ
  pub allocate_number : ℕ
  pub ma_info : ℕ → AllocInfo
  pub fragment_size : ℕ → ℕ
  pub next_fragment : ℕ → ℕ

-- There are fewer fragments than offsets of 16 bits, so this fuel is enough for a walk over them.
abbrev pub page_limit : ℕ
page_limit = 0x10000

pub get_free_space : Area → ℕ
get_free_space a =
    let top = if a.content_area_start == 0 then a.size else a.content_area_start in
    let free = sub32 top (a.allocate_number * 4 % 2 ^ 32) in if ltb free 32 then 0 else free

-- The while loop of `memory_fragment_insert`: the previous and the next fragment where it stops.
-- `none` means that the fuel ran out.
pub insert_slot :
    ℕ → (fragment_size next_fragment : ℕ → ℕ) → (current previous next : ℕ) → Option (ℕ × ℕ)
insert_slot zero fs fn current previous next = none
insert_slot (suc k) fs fn current previous next =
    let more = insert_slot k fs fn current next (fn next) in
    if (fn next == 0) || leb (fs next) (fs current) then some (previous, next) else more

-- The new fragment `start` is linked behind `previous`, or in front of all.
pub link_fragment : (start previous : ℕ) → Area → Area
link_fragment start previous a =
    if previous == 0
    then record a {
      next_fragment = update a.next_fragment start a.max_fragment_offset;
      max_fragment_offset = short start;
    }
    else record a {
      next_fragment =
          update (update a.next_fragment start (a.next_fragment previous)) previous (short start);
    }

pub memory_fragment_insert : (start_offset_in_page size : ℕ) → Area → Option Area
memory_fragment_insert start size a =
    let a1 = record a {
      next_fragment = update a.next_fragment start 0;
      fragment_size = update a.fragment_size start (short size);
    } in
    let slot =
      insert_slot page_limit a1.fragment_size a1.next_fragment start 0 a1.max_fragment_offset in
    if (start == 0) || (size == 0)
    then some a
    else if a.max_fragment_offset == 0
    then some (record a1 { max_fragment_offset = short start })
    else elim slot [
      | none ↦ none
      | some (previous, next) ↦
          some
            (link_fragment start (if ltb size (a1.fragment_size next) then next else previous) a1)
    ]

-- The while loop of `memory_fragment_get`: the previous, the target and the next fragment.
pub get_slot :
    ℕ → (fragment_size next_fragment : ℕ → ℕ) → (size previous target next : ℕ) → Option (ℕ × ℕ × ℕ)
get_slot zero fs fn size previous target next = none
get_slot (suc k) fs fn size previous target next =
    let more = get_slot k fs fn size target next (fn next) in
    if (fn next == 0) || ltb (fs next) size then some (previous, target, next) else more

-- What follows that loop: the target, or the next fragment where it is large enough, leaves the
-- list.
pub take_fragment : (size previous target next : ℕ) → Area → ℕ × Area
take_fragment size previous target next a =
    let p = if leb size (a.fragment_size next) then target else previous in
    let t = if leb size (a.fragment_size next) then next else target in
    if p == 0
    then (t, record a { max_fragment_offset = a.next_fragment t })
    else (t, record a { next_fragment = update a.next_fragment p (a.next_fragment t) })

-- The offset of the fragment, or 0 for NULL.
pub memory_fragment_get : (size : ℕ) → Area → Option (ℕ × Area)
memory_fragment_get size a =
    let first = a.max_fragment_offset in
    let second = a.next_fragment first in
    let slot = get_slot page_limit a.fragment_size a.next_fragment size 0 first second in
    if (first == 0) || (size == 0) || ltb (a.fragment_size first) size
    then some (0, a)
    else if second == 0
    then some (first, record a { max_fragment_offset = 0 })
    else elim slot [
      | none ↦ none
      | some (previous, target, next) ↦ some (take_fragment size previous target next a)
    ]

pub memory_fragment_divide : (fragment size : ℕ) → Area → Option (AllocInfo × Area)
memory_fragment_divide fragment size a =
    let whole = a.fragment_size fragment in
    let taken = if ltb (whole - size) 8 then whole else size in
    let info : AllocInfo = record { length = short taken; start_offset_in_page = short fragment } in
    let nothing : AllocInfo = record { length = 0; start_offset_in_page = 0 } in
    if leb size whole
    then (elim (memory_fragment_insert (add32 fragment taken) (whole - taken) a) [
      | none ↦ none
      | some a' ↦ some (info, a')
    ])
    else some (nothing, a)

pub memory_alloc_from_page_top : (size : ℕ) → Area → ℕ × Area
memory_alloc_from_page_top size a =
    let low = short (sub32 a.size size) in
    let first : AllocInfo = record { length = short size; start_offset_in_page = low } in
    let next = short (sub32 a.content_area_start size) in
    let info : AllocInfo = record { length = short size; start_offset_in_page = next } in
    if (size == 0) && leb a.size size
    then (0, a)
    else if a.allocate_number == 0
    then (
      sub32 a.end_address size,
      record a {
        max_fragment_offset = 0;
        content_area_start = low;
        allocate_number = 1;
        ma_info = update a.ma_info 0 first;
      },
    )
    else if leb (get_free_space a) (add32 size 4)
    then (0, a)
    else (
      add32 a.start_address next,
      record a {
        content_area_start = next;
        ma_info = update a.ma_info a.allocate_number info;
        allocate_number = add32 a.allocate_number 1;
      },
    )

-- The address, or 0 for NULL.
pub memory_alloc : (size : ℕ) → Area → Option (ℕ × Area)
memory_alloc size a =
    let address = λ (i : AllocInfo).
      if nonzero i.length && nonzero i.start_offset_in_page
      then add32 i.start_offset_in_page a.start_address
      else 0 in
    elim (memory_fragment_get size a) [
      | none ↦ none
      | some (fragment, a1) ↦
          if fragment == 0
          then some (memory_alloc_from_page_top size a1)
          else elim (memory_fragment_divide fragment size a1) [
            | none ↦ none
            | some (info, a2) ↦ some (address info, a2)
          ]
    ]
