-- ===== src/Area/Manage/Add.antt =====
-- `memory_manage_area_add`: the areas, against each other.
use stm32_os.Common.{
  ℕ, zero, suc, ◌+◌, ◌-◌, ◌%◌, ◌≤◌, ◌<◌, ◌^◌, ◌≡◌, ◌⊎◌, true, false, arith, ◌==◌, ◌||◌, leb,
  if◌then◌else◌, refl, Bool-cases, inl, inr, ==-false, ==-true, update, subst, sym,
}
use stm32_os.Port.{os_success}
use stm32_os.Area.{Area}
use stm32_os.Area.Manage.{
  MemoryManage, max_memory_area_num, area_align, os_failed, touches, align_up,
  memory_manage_area_add,
}

-- An area from `start` to `stop` is apart from another one, or encloses it.
abbrev pub Clear : (start stop : ℕ) → Area → Type 0
Clear start stop a =
    (stop < a.start_address)
    ⊎ ((a.end_address < start) ⊎ ((start < a.start_address) × (a.end_address < stop)))

touches-Clear :
    (count index start stop j : ℕ) (area : ℕ → Area)
    → touches count index start stop area ≡ false
    → start < stop
    → index ≤ j
    → j < index + count
    → Clear start stop (area j)
unfolding touches
touches-Clear zero index start stop j area e lt le bound = absurd (omega arith)
touches-Clear (suc c) index start stop j area e lt le bound = elim (Bool-cases (index == j)) [
  | inl same ↦
      let at : index ≡ j = ground arith in subst (λ i. Clear start stop (area i)) at (ground arith)
  | inr more ↦
      touches-Clear c (index + 1) start stop j area (ground arith) lt (ground arith) (omega arith)
]

-- What is promised of a new area `b`: it lies inside the addresses that were asked for, its ends
-- are multiples of AREA_ALIGN, it is not empty, and each older area is apart from it or is
-- enclosed by it.
pub record Fresh (start_address end_address : ℕ) (m : MemoryManage) (b : Area) : Type 0 where
  pub inside : (start_address ≤ b.start_address) × (b.end_address ≤ end_address)
  pub aligned : (b.start_address % area_align ≡ 0) × (b.end_address % area_align ≡ 0)
  pub sized : b.start_address + b.size ≡ b.end_address
  pub positive : 0 < b.size
  pub clear : (i : ℕ) → i < m.memory_area_num → Clear b.start_address b.end_address (m.area i)

-- The others stay, and there are at most MAX_MEMORY_AREA_NUM.
pub record IsAdded (start_address end_address : ℕ) (m m' : MemoryManage) : Type 0 where
  pub count : m'.memory_area_num ≡ m.memory_area_num + 1
  pub few : m'.memory_area_num ≤ max_memory_area_num
  pub others : (i : ℕ) → i < m.memory_area_num → m'.area i ≡ m.area i
  pub fresh : Fresh start_address end_address m (m'.area m.memory_area_num)

add-step :
    (start stop : ℕ) (m : MemoryManage)
    → let s = align_up start in
      let e = stop - stop % area_align in
      let n = m.memory_area_num in
      (leb max_memory_area_num n || leb e s || touches n 0 s e m.area) ≡ false
      → memory_manage_area_add start stop m ≡ (
        os_success,
        record m {
          area =
              update m.area n
                (record (m.area n) { start_address = s; end_address = e; size = e - s });
          memory_area_num = n + 1;
        },
      )
unfolding memory_manage_area_add
add-step start stop m e = rw e refl

add-refused :
    (start stop : ℕ) (m : MemoryManage)
    → let s = align_up start in
      let e = stop - stop % area_align in
      let n = m.memory_area_num in
      (leb max_memory_area_num n || leb e s || touches n 0 s e m.area) ≡ true
      → memory_manage_area_add start stop m ≡ (os_failed, m)
unfolding memory_manage_area_add
add-refused start stop m e = rw e refl

align_up_lem :
    (start : ℕ)
    → start + area_align ≤ 2 ^ 32
    → (start ≤ align_up start) × (align_up start % area_align ≡ 0)
unfolding align_up
align_up_lem start le = (ground arith, ground arith)

-- `memory_manage_area_add`, of a start that is at least AREA_ALIGN below the end of the address
-- space, refuses and changes nothing, or adds an area to the others, which stay: it lies inside
-- the addresses that were asked for, is not empty, and both its ends are multiples of AREA_ALIGN.
-- Each older area is apart from it or is enclosed by it.
pub memory_manage_area_add-IsAdded :
    (start stop : ℕ) (m : MemoryManage)
    → start + area_align ≤ 2 ^ 32
    → let (code, m') = memory_manage_area_add start stop m in
      if code == os_success then IsAdded start stop m m' else (m' ≡ m)
memory_manage_area_add-IsAdded start stop m le =
    let s = align_up start in
    let e = stop - stop % area_align in
    let n = m.memory_area_num in
    let (above, aligned) = align_up_lem start le in
    let test = leb max_memory_area_num n || leb e s || touches n 0 s e m.area in
    let Result : ℕ × MemoryManage → Type 0 =
      λ t. if t.0 == os_success then IsAdded start stop m t.1 else (t.1 ≡ m) in
    elim (Bool-cases test) [
      | inl refused ↦ subst Result (sym (add-refused start stop m refused)) refl
      | inr taken ↦
          let b : Area = record (m.area n) { start_address = s; end_address = e; size = e - s } in
          let same : update m.area n b n ≡ b = rw (==-true n n refl) refl in
          let few : n < max_memory_area_num = ground arith in
          let lt : s < e = ground arith in
          let apart : touches n 0 s e m.area ≡ false = ground arith in
          let fresh : Fresh start stop m b = record {
            inside = (above, omega arith);
            aligned = (aligned, omega arith);
            sized = omega arith;
            positive = omega arith;
            clear = λ i h. touches-Clear n 0 s e i m.area apart lt (omega arith) (omega arith);
          } in
          let added : IsAdded start stop m
              (record m { area = update m.area n b; memory_area_num = n + 1 }) =
            record {
              count = refl;
              few = omega arith;
              others = λ i h. rw (==-false n i (omega arith)) refl;
              fresh = subst (Fresh start stop m) (sym same) fresh;
            } in
          subst Result (sym (add-step start stop m taken)) added
    ]
