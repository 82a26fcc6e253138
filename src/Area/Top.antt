-- ===== src/Area/Top.antt =====
-- `memory_alloc_from_page_top`: what is allocated does not overlap.
use stm32_os.Common.{
  ℕ, zero, suc, ◌+◌, ◌-◌, ◌*◌, ◌≤◌, ◌<◌, ◌^◌, ◌≡◌, ◌≢◌, ◌⊎◌, ltb, true, false, arith, ◌==◌, leb,
  if◌then◌else◌, refl, Bool-cases, inl, inr, ==-false, ==-true, update, subst, sym, ap, ◌∙◌,
}
use stm32_os.Port.{add32, sub32}
use stm32_os.Area.{AllocInfo, Area, short, get_free_space, memory_alloc_from_page_top}

-- The `count` entries from `index` on lie below `limit`, each below the one before it.
abbrev pub Below : (count index limit : ℕ) → (ℕ → AllocInfo) → Type 0
Below zero i limit ma = Unit
Below (suc c) i limit ma =
    (0 < (ma i).length)
    × ((ma i).start_offset_in_page + (ma i).length ≤ limit)
    × Below c (i + 1) (ma i).start_offset_in_page ma

-- Where the lowest of them begins.
abbrev pub lowest : (count index limit : ℕ) → (ℕ → AllocInfo) → ℕ
lowest zero i limit ma = limit
lowest (suc c) i limit ma = lowest c (i + 1) (ma i).start_offset_in_page ma

-- The table lies below what is allocated: `ma_info` begins at offset 8 of the area, and an entry
-- has 4 bytes.
pub record IsTable (a : Area) : Type 0 where
  pub below : Below a.allocate_number 0 a.size a.ma_info
  pub low :
      a.allocate_number ≢ 0 → a.content_area_start ≡ lowest a.allocate_number 0 a.size a.ma_info
  pub room : 8 + 4 * a.allocate_number ≤ lowest a.allocate_number 0 a.size a.ma_info
  pub small : a.size ≤ 2 ^ 16
  pub end_at : a.end_address ≡ a.start_address + a.size
  pub fits : a.end_address < 2 ^ 32

Below-snoc :
    (c i j limit : ℕ) (ma : ℕ → AllocInfo) (e : AllocInfo)
    → j ≡ i + c
    → Below c i limit ma
    → 0 < e.length
    → e.start_offset_in_page + e.length ≤ lowest c i limit ma
    → Below (suc c) i limit (update ma j e)
      × (lowest (suc c) i limit (update ma j e) ≡ e.start_offset_in_page)
Below-snoc zero i j limit ma e at b pos le =
    let same : update ma j e i ≡ e = rw (==-true j i (ground arith)) refl in
    (rw same (pos, le, tt), ap (λ x. x.start_offset_in_page) same)
Below-snoc (suc c) i j limit ma e at b pos le =
    let same : update ma j e i ≡ ma i = rw (==-false j i (ground arith)) refl in
    let (later, low) =
      Below-snoc c (i + 1) j (ma i).start_offset_in_page ma e (omega arith) b.2 pos le in
    rw same ((b.0, b.1, later), low)

pub lowest-le :
    (c i limit : ℕ) (ma : ℕ → AllocInfo) → Below c i limit ma → lowest c i limit ma ≤ limit
lowest-le zero i limit ma b = omega arith
lowest-le (suc c) i limit ma b =
    omega (arith, b.0, b.1, lowest-le c (i + 1) (ma i).start_offset_in_page ma b.2)

-- What an allocation of `n` bytes at `p` promises.
abbrev pub Given : (n : ℕ) → Area → ℕ × Area → Type 0
Given n a (p, a') =
    let end = lowest a.allocate_number 0 a.size a.ma_info in
    let entries = 4 * a.allocate_number in
    (if p == 0
      then (a' ≡ a) × ((end ≤ entries + n + 4) ⊎ (end < entries + 32))
      else (IsTable a' ⊎ (end < 8 + entries + 4 + n))
        × (entries + 4 + n ≤ end)
        × (a.start_address ≤ p)
        × (p + n ≤ a.start_address + end)
        × (a'.allocate_number ≡ a.allocate_number + 1)
        × ((a'.ma_info a.allocate_number).length ≡ n)
        × (a.start_address + (a'.ma_info a.allocate_number).start_offset_in_page ≡ p))

-- The area after an allocation that begins at the offset `low`.
abbrev pub with_entry : (n low max : ℕ) → Area → Area
with_entry n low max a =
    let info : AllocInfo = record { length = n; start_offset_in_page = low } in
    record a {
      max_fragment_offset = max;
      content_area_start = low;
      ma_info = update a.ma_info a.allocate_number info;
      allocate_number = suc a.allocate_number;
    }

pub with_entry-Given :
    (n low max : ℕ) (a : Area)
    → IsTable a
    → 0 < n
    → low + n ≡ lowest a.allocate_number 0 a.size a.ma_info
    → 4 * a.allocate_number + 4 ≤ low
    → a.start_address + low ≢ 0
    → Given n a (a.start_address + low, with_entry n low max a)
with_entry-Given n low max a v pos at room some_place =
    let k = a.allocate_number in
    let info : AllocInfo = record { length = n; start_offset_in_page = low } in
    let here : update a.ma_info k info k ≡ info = rw (==-true k k refl) refl in
    let (below, low') =
      Below-snoc k 0 k a.size a.ma_info info (omega arith) v.below pos (omega arith) in
    let table : IsTable (with_entry n low max a)
        ⊎ (lowest k 0 a.size a.ma_info < 8 + 4 * k + 4 + n) =
      elim (Bool-cases (ltb low (8 + 4 * k + 4))) [
        | inl e ↦ inr (ground arith)
        | inr e ↦ inl (record {
          below = below;
          low = λ ne. sym low';
          room = ground (arith, low');
          small = v.small;
          end_at = v.end_at;
          fits = v.fits;
        })
      ] in
    rw (==-false (a.start_address + low) 0 some_place) (
      table,
      omega arith,
      omega arith,
      omega arith,
      omega arith,
      ap (λ x. x.length) here,
      ap (λ x. a.start_address + x.start_offset_in_page) here,
    )

top-first :
    (n : ℕ) (a : Area)
    → 0 < n
    → a.allocate_number ≡ 0
    → let info : AllocInfo = record {
      length = short n;
      start_offset_in_page = short (sub32 a.size n);
    } in
      memory_alloc_from_page_top n a ≡ (
        sub32 a.end_address n,
        record a {
          max_fragment_offset = 0;
          content_area_start = short (sub32 a.size n);
          allocate_number = 1;
          ma_info = update a.ma_info 0 info;
        },
      )
unfolding memory_alloc_from_page_top
top-first n a pos e = rw (==-false n 0 (ground arith), ==-true a.allocate_number 0 e)

top-full :
    (n : ℕ) (a : Area)
    → 0 < n
    → a.allocate_number ≢ 0
    → leb (get_free_space a) (add32 n 4) ≡ true
    → memory_alloc_from_page_top n a ≡ (0, a)
unfolding memory_alloc_from_page_top
top-full n a pos ne full = rw (==-false n 0 (ground arith), ==-false a.allocate_number 0 ne, full)

top-next :
    (n : ℕ) (a : Area)
    → 0 < n
    → a.allocate_number ≢ 0
    → leb (get_free_space a) (add32 n 4) ≡ false
    → let next = short (sub32 a.content_area_start n) in
      let info : AllocInfo = record { length = short n; start_offset_in_page = next } in
      memory_alloc_from_page_top n a ≡ (
        add32 a.start_address next,
        record a {
          content_area_start = next;
          ma_info = update a.ma_info a.allocate_number info;
          allocate_number = add32 a.allocate_number 1;
        },
      )
unfolding memory_alloc_from_page_top
top-next n a pos ne more = rw (==-false n 0 (ground arith), ==-false a.allocate_number 0 ne, more)

free-none :
    (n : ℕ) (a : Area)
    → IsTable a
    → n + 12 ≤ a.size
    → a.allocate_number ≢ 0
    → leb (get_free_space a) (add32 n 4) ≡ true
    → (let end = lowest a.allocate_number 0 a.size a.ma_info in
        (end ≤ 4 * a.allocate_number + n + 4) ⊎ (end < 4 * a.allocate_number + 32))
unfolding get_free_space
free-none n a v le some_yet full =
    let at = v.low some_yet in
    let high = lowest-le a.allocate_number 0 a.size a.ma_info v.below in
    let room = v.room in let small = v.small in ground arith

free-room :
    (n : ℕ) (a : Area)
    → IsTable a
    → 0 < n
    → n + 12 ≤ a.size
    → a.allocate_number ≢ 0
    → leb (get_free_space a) (add32 n 4) ≡ false
    → 4 * a.allocate_number + n + 4 < a.content_area_start
unfolding get_free_space
free-room n a v pos le some_yet more =
    let at = v.low some_yet in
    let high = lowest-le a.allocate_number 0 a.size a.ma_info v.below in
    let room = v.room in let small = v.small in ground arith

-- `memory_alloc_from_page_top` of `n` bytes, which are not 0 and fit into the area with the
-- header's two words and one entry, from a valid area with less than 256 entries, which is as many
-- as `ma_info` has. Either it returns NULL and changes nothing: then not more than `n + 4` bytes
-- are left below what is allocated, or fewer than 32, without those of the entries. Or it gives `n`
-- bytes inside the area, below all that is allocated and above as many bytes as the entries have,
-- and enters them into the table. Then the area stays valid, or the bytes reach down to the
-- entries: these begin 8 bytes behind the start of the area, which is not tested.
pub memory_alloc_from_page_top-Given :
    (n : ℕ) (a : Area)
    → IsTable a
    → a.allocate_number < 256
    → 0 < n
    → n + 12 ≤ a.size
    → Given n a (memory_alloc_from_page_top n a)
memory_alloc_from_page_top-Given n a v few pos le = elim (Bool-cases (a.allocate_number == 0)) [
  | inl e ↦
      let none_yet : a.allocate_number ≡ 0 = ground arith in
      let low : ℕ = a.size - n in
      let low_at : low + n ≡ lowest a.allocate_number 0 a.size a.ma_info =
        rw none_yet (omega arith) in
      let e1 : short (sub32 a.size n) ≡ low = omega arith in
      let e2 : short n ≡ n = omega arith in
      let e3 : sub32 a.end_address n ≡ a.start_address + low = omega arith in
      subst (Given n a) (sym (top-first n a pos none_yet ∙ rw (e1, e2, e3, none_yet) refl))
        (with_entry-Given n low 0 a v pos low_at (omega arith) (omega arith))
  | inr e ↦ elim (Bool-cases (leb (get_free_space a) (add32 n 4))) [
    | inl full ↦
        subst (Given n a) (sym (top-full n a pos (ground arith) full))
          (refl, free-none n a v le (ground arith) full)
    | inr more ↦
        let some_yet : a.allocate_number ≢ 0 = ground arith in
        let low : ℕ = a.content_area_start - n in
        let at = v.low some_yet in
        let high = lowest-le a.allocate_number 0 a.size a.ma_info v.below in
        let room = free-room n a v pos le some_yet more in
        let e1 : short (sub32 a.content_area_start n) ≡ low = omega arith in
        let e2 : short n ≡ n = omega arith in
        let e3 : add32 a.allocate_number 1 ≡ suc a.allocate_number = omega arith in
        let e4 : add32 a.start_address low ≡ a.start_address + low = omega arith in
        subst (Given n a) (sym (top-next n a pos some_yet more ∙ rw (e1, e2, e3, e4) refl)) (
          with_entry-Given n low a.max_fragment_offset a v pos (omega arith) (omega arith)
            (omega arith))
  ]
]
