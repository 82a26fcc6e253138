-- ===== src/Block/Tests.antt =====
-- One free structure, at 1000; and a list of one block.
use stm32_os.Common.{[], ◌∷◌, ◌==◌, if◌then◌else◌, arith, refl}
use stm32_os.Block.{Blocks}
use stm32_os.Block.Buddy.Round.{Normalized, normalize_size-least}
use stm32_os.Block.Buddy.Insert.{ListHolds, Inserted, memory_block_insert-place}
use stm32_os.Block.Buddy.Get.{Got, memory_block_get-lowest}

abbrev one_free : Blocks
one_free = record {
  size = λ x. 0;
  start = λ x. 0;
  end = λ x. 0;
  work = record { next = λ x. x; previous = λ x. x };
  available_storage = λ x. 0;
  refered_number = λ x. 0;
  slob = λ x. 0;
  location = record { next = λ x. 0; previous = λ x. 0 };
  owner = λ x. 0;
  buddy_system_list = λ i. 0;
  slob_current = 0;
  slob_partial = 0;
  clears = [];
  free_info_block = 1000;
  unused_front = 0x20001000;
  unused_back = 0x20005000;
}

-- A request of 6 KB: the highest bit is bit 12.
normalize_size-least_example : Normalized 0x1800 0x1800
normalize_size-least_example = normalize_size-least 0x1800 (omega arith)

-- A block of 4 KB at 1000 is in the first list; the one at 2000 lies lower.
abbrev one_block : Blocks
one_block = record one_free {
  size = λ x. 0x1000;
  start = λ x. if x == 1000 then 0x20003000 else 0x20001000;
  work = record { next = λ x. x; previous = λ x. x };
  buddy_system_list = λ i. if i == 0 then 1000 else 0;
}

one_block-Holds : ListHolds one_block 0 (1000 ∷ [])
one_block-Holds = record { ring = (refl, (refl, tt), refl, (refl, refl)); sorted = tt }

memory_block_insert-place_example : Inserted one_block 0 2000 (1000 ∷ [])
memory_block_insert-place_example =
    memory_block_insert-place one_block 0 2000 (1000 ∷ []) one_block-Holds (omega arith) refl refl
      (omega arith) (omega arith) (omega arith) (omega arith)

memory_block_get-lowest_example : Got one_block 0x1000 0 1000 []
memory_block_get-lowest_example =
    memory_block_get-lowest one_block 0x1000 0 1000 [] one_block-Holds (omega arith) (omega arith)
      (omega arith)
