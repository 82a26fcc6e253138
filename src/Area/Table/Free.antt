-- ===== src/Area/Table/Free.antt =====
-- `memory_free` of what was allocated last.
use stm32_os.Common.{
  ℕ, zero, suc, ◌+◌, ◌-◌, ◌*◌, ◌≤◌, ◌<◌, ◌^◌, ◌≡◌, ◌≢◌, some, arith, refl, ==-false, ==-true,
  update, subst, subst₂, sym, ap, ap₂, ◌∙◌,
}
use stm32_os.Port.{sub32}
use stm32_os.Area.{AllocInfo, Area}
use stm32_os.Area.Table.{
  find_entry, memory_alloc_info_find, move_down, memory_alloc_info_delete, give_back, memory_free,
}
use stm32_os.Area.Top.{Below, lowest, IsTable, lowest-le}

lowest-lt :
    (c i limit : ℕ) (ma : ℕ → AllocInfo)
    → Below (suc c) i limit ma
    → lowest (suc c) i limit ma < limit
lowest-lt c i limit ma (pos, le, b) =
    omega (arith, lowest-le c (i + 1) (ma i).start_offset_in_page ma b)

-- The lowest entry is the last one, and the search finds it.
lowest-last :
    (c i j limit : ℕ) (ma : ℕ → AllocInfo)
    → j ≡ i + c
    → lowest (suc c) i limit ma ≡ (ma j).start_offset_in_page
lowest-last zero i j limit ma e = ap (λ x. (ma x).start_offset_in_page) (omega arith)
lowest-last (suc c) i j limit ma e =
    lowest-last c (i + 1) j (ma i).start_offset_in_page ma (omega arith)

find_entry-last :
    (c i j limit : ℕ) (ma : ℕ → AllocInfo)
    → j ≡ i + c
    → Below (suc c) i limit ma
    → find_entry (suc c) i (lowest (suc c) i limit ma) ma ≡ some j
unfolding find_entry
find_entry-last zero i j limit ma e b =
    rw (==-true (ma i).start_offset_in_page (ma i).start_offset_in_page refl)
      (ap some (omega arith))
find_entry-last (suc c) i j limit ma e (pos, le, b) =
    let less = lowest-lt c (i + 1) (ma i).start_offset_in_page ma b in
    let low = lowest (suc c) (i + 1) (ma i).start_offset_in_page ma in
    rw (==-false (ma i).start_offset_in_page low (ground arith))
      (find_entry-last c (i + 1) j (ma i).start_offset_in_page ma (omega arith) b)

-- The area without the lowest of its `suc k` entries.
abbrev without_lowest : (k : ℕ) → Area → Area
without_lowest k a = record a {
  ma_info = update a.ma_info k (a.ma_info (k + 1));
  allocate_number = k;
}

find-lowest :
    (k p : ℕ) (a : Area)
    → IsTable a
    → a.allocate_number ≡ suc k
    → p ≡ a.start_address + (a.ma_info k).start_offset_in_page
    → (memory_alloc_info_find p a ≡ some k) × (k < 2 ^ 16)
unfolding memory_alloc_info_find
find-lowest k p a v n at =
    let b : Below (suc k) 0 a.size a.ma_info = subst (λ c. Below c 0 a.size a.ma_info) n v.below in
    let low : lowest (suc k) 0 a.size a.ma_info ≡ (a.ma_info k).start_offset_in_page =
      lowest-last k 0 k a.size a.ma_info (omega arith) in
    let fits = v.fits in
    let end_at = v.end_at in
    let small = v.small in
    let room : 8 + 4 * suc k ≤ lowest (suc k) 0 a.size a.ma_info =
      subst (λ c. 8 + 4 * c ≤ lowest c 0 a.size a.ma_info) n v.room in
    let high = lowest-le (suc k) 0 a.size a.ma_info b in
    let offset : sub32 p a.start_address ≡ lowest (suc k) 0 a.size a.ma_info = omega arith in
    let found = find_entry-last k 0 k a.size a.ma_info (omega arith) b in
    (subst₂ (λ c o. find_entry c 0 o a.ma_info ≡ some k) (sym n) (sym offset) found, omega arith)

delete-lowest :
    (k p : ℕ) (a : Area)
    → IsTable a
    → a.allocate_number ≡ suc k
    → p ≡ a.start_address + (a.ma_info k).start_offset_in_page
    → memory_alloc_info_delete p a ≡ (a.ma_info k, without_lowest k a)
unfolding memory_alloc_info_delete move_down
delete-lowest k p a v n at =
    let (found, lt) = find-lowest k p a v n at in
    let one : a.allocate_number - k ≡ 1 = omega arith in
    let count : sub32 a.allocate_number 1 ≡ k = omega arith in
    rw (memory_alloc_info_delete, found)
      (ap₂
        (λ c m. (a.ma_info k, record a { ma_info = move_down c k a.ma_info; allocate_number = m }))
        one count)

Below-last :
    (c i j limit : ℕ) (ma : ℕ → AllocInfo)
    → j ≡ i + c
    → Below (suc c) i limit ma
    → 0 < (ma j).length
Below-last zero i j limit ma e b = subst (λ x. 0 < (ma x).length) (omega arith) b.0
Below-last (suc c) i j limit ma e b =
    Below-last c (i + 1) j (ma i).start_offset_in_page ma (omega arith) b.2

free-step :
    (p : ℕ) (a b : Area) (info : AllocInfo)
    → memory_alloc_info_delete p a ≡ (info, b)
    → 0 < info.start_offset_in_page
    → 0 < info.length
    → b.allocate_number ≢ 0
    → b.content_area_start ≡ info.start_offset_in_page
    → memory_free p a
      ≡ some (
        info.length,
        record b {
          content_area_start = (b.ma_info (sub32 b.allocate_number 1)).start_offset_in_page;
        },
      )
unfolding memory_free give_back
free-step p a b info e ps pl nb at =
    rw
      (
        e,
        ==-false info.start_offset_in_page 0 (ground arith),
        ==-false info.length 0 (ground arith),
        ==-false b.allocate_number 0 nb,
        ==-true b.content_area_start info.start_offset_in_page at,
      )
      (ap
        (λ t. some (
          (t.0).length,
          record b {
            content_area_start = (b.ma_info (sub32 b.allocate_number 1)).start_offset_in_page;
          },
        ))
        e)

-- The lowest entry has some length and does not begin at offset 0, and the content begins there.
lowest_entry :
    (k : ℕ) (a : Area)
    → IsTable a
    → a.allocate_number ≡ suc (suc k)
    → (0 < (a.ma_info (suc k)).length)
      × (0 < (a.ma_info (suc k)).start_offset_in_page)
      × (a.content_area_start ≡ (a.ma_info (suc k)).start_offset_in_page)
lowest_entry k a v n =
    let b : Below (suc (suc k)) 0 a.size a.ma_info =
      subst (λ c. Below c 0 a.size a.ma_info) n v.below in
    let low = lowest-last (suc k) 0 (suc k) a.size a.ma_info (omega arith) in
    let room : 8 + 4 * suc (suc k) ≤ lowest (suc (suc k)) 0 a.size a.ma_info =
      subst (λ c. 8 + 4 * c ≤ lowest c 0 a.size a.ma_info) n v.room in
    let at = v.low (ground arith) in
    (
      Below-last (suc k) 0 (suc k) a.size a.ma_info (omega arith) b,
      omega arith,
      at ∙ ap (λ c. lowest c 0 a.size a.ma_info) n ∙ low,
    )

-- `memory_free` of the entry that was allocated last, in a valid area where others are left,
-- returns its size and undoes the allocation: its space is free again, that is what is allocated
-- begins where the entry before it does, and the other entries stay.
pub memory_free-lowest :
    (k p : ℕ) (a : Area)
    → IsTable a
    → a.allocate_number ≡ suc (suc k)
    → p ≡ a.start_address + (a.ma_info (suc k)).start_offset_in_page
    → (a' : Area) × (memory_free p a ≡ some ((a.ma_info (suc k)).length, a'))
      × (a'.allocate_number ≡ suc k)
      × (a'.content_area_start ≡ (a.ma_info k).start_offset_in_page)
      × ((i : ℕ) → i ≤ k → a'.ma_info i ≡ a.ma_info i)
memory_free-lowest k p a v n at =
    let info = a.ma_info (suc k) in
    let a1 : Area = without_lowest (suc k) a in
    let (length_pos, start_pos, low) = lowest_entry k a v n in
    let lt = (find-lowest (suc k) p a v n at).1 in
    let same : (i : ℕ) → i ≤ k → a1.ma_info i ≡ a.ma_info i =
      λ i le. rw (==-false (suc k) i (omega arith)) refl in
    let index : sub32 (suc k) 1 ≡ k = omega arith in
    (
      record a1 { content_area_start = (a1.ma_info (sub32 (suc k) 1)).start_offset_in_page },
      free-step p a a1 info (delete-lowest (suc k) p a v n at) start_pos length_pos (omega arith)
          low,
      refl,
      ap (λ i. (a1.ma_info i).start_offset_in_page) index
          ∙ ap (λ x. x.start_offset_in_page) (same k (omega arith)),
      same,
    )
