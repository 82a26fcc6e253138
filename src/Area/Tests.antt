-- ===== src/Area/Tests.antt =====
-- An area of 4096 bytes with one allocation of 256 bytes at its end and two fragments.
use stm32_os.Common.{ℕ, ◌≤◌, ◌≡◌, some, [], ◌∷◌, arith, ◌==◌, if◌then◌else◌, refl}
use stm32_os.Area.{Area, memory_fragment_insert, memory_fragment_get, memory_alloc_from_page_top}
use stm32_os.Area.Table.{memory_free}
use stm32_os.Area.Table.Free.{memory_free-lowest}
use stm32_os.Port.{os_success}
use stm32_os.Area.Manage.{MemoryManage, memory_manage_area_add}
use stm32_os.Area.Manage.Add.{IsAdded, memory_manage_area_add-IsAdded}
use stm32_os.Area.Fragments.{Frags, Holds}
use stm32_os.Area.Insert.{memory_fragment_insert-place}
use stm32_os.Area.Fit.{discard}
use stm32_os.Area.Get.{Found, memory_fragment_get-best}
use stm32_os.Area.Top.{IsTable, Given, memory_alloc_from_page_top-Given}

abbrev area : Area
area = record {
  alloc_size = 256;
  size = 4096;
  start_address = 4096;
  end_address = 8192;
  content_area_start = 3840;
  max_fragment_offset = 1000;
  allocate_number = 1;
  ma_info = λ i. record { length = 256; start_offset_in_page = 3840 };
  fragment_size = λ o. if o == 1000 then 64 else 32;
  next_fragment = λ o. if o == 1000 then 2000 else 0;
}

abbrev fragments : Frags
fragments = (1000, 64) ∷ (2000, 32) ∷ []

area-Holds : Holds area fragments
area-Holds = record {
  run = (refl, omega arith, omega arith, refl, (refl, omega arith, omega arith, refl, refl));
  distinct = (refl, (refl, tt));
  sorted = (omega arith, (omega arith, tt));
}

area-IsTable : IsTable area
area-IsTable = record {
  below = (omega arith, omega arith, tt);
  low = λ ne. refl;
  room = omega arith;
  small = omega arith;
  end_at = refl;
  fits = omega arith;
}

memory_fragment_insert-place_example :
    (a' : Area) × (memory_fragment_insert 3000 48 area ≡ some a')
    × Holds a' ((1000, 64) ∷ (3000, 48) ∷ (2000, 32) ∷ [])
memory_fragment_insert-place_example =
    memory_fragment_insert-place 3000 48 area fragments area-Holds (omega arith) (omega arith)
      (omega arith) (omega arith) refl (omega arith)

memory_fragment_get-best_example :
    (t : ℕ) × (a' : Area) × (memory_fragment_get 40 area ≡ some (t, a'))
    × Holds a' (discard t fragments)
    × Found 40 t fragments
memory_fragment_get-best_example =
    memory_fragment_get-best 40 area fragments area-Holds (omega arith) (omega arith)

memory_alloc_from_page_top-Given_example : Given 128 area (memory_alloc_from_page_top 128 area)
memory_alloc_from_page_top-Given_example =
    memory_alloc_from_page_top-Given 128 area area-IsTable (omega arith) (omega arith) (omega arith)

-- A second allocation, of 128 bytes below the first.
abbrev two_entries : Area
two_entries = record area {
  content_area_start = 3712;
  allocate_number = 2;
  ma_info = λ i.
      if i == 0
      then record { length = 256; start_offset_in_page = 3840 }
      else record { length = 128; start_offset_in_page = 3712 };
}

two_entries-IsTable : IsTable two_entries
two_entries-IsTable = record {
  below = (omega arith, omega arith, (omega arith, omega arith, tt));
  low = λ ne. refl;
  room = omega arith;
  small = omega arith;
  end_at = refl;
  fits = omega arith;
}

memory_free-lowest_example :
    (a' : Area) × (memory_free 7808 two_entries ≡ some (128, a'))
    × (a'.allocate_number ≡ 1)
    × (a'.content_area_start ≡ 3840)
    × ((i : ℕ) → i ≤ 0 → a'.ma_info i ≡ two_entries.ma_info i)
memory_free-lowest_example = memory_free-lowest 0 7808 two_entries two_entries-IsTable refl refl

-- That area alone is managed, and another one is added.
abbrev managed : MemoryManage
managed = record { total_size = 4096; memory_area_num = 1; area = λ i. area }

memory_manage_area_add-IsAdded_example :
    let (code, m') = memory_manage_area_add 0x3010 0x6020 managed in
    if code == os_success then IsAdded 0x3010 0x6020 managed m' else (m' ≡ managed)
memory_manage_area_add-IsAdded_example =
    memory_manage_area_add-IsAdded 0x3010 0x6020 managed (omega arith)
