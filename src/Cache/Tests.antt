-- ===== src/Cache/Tests.antt =====
-- A block, whose structure is at 5000, with one cache of 100 bytes in use at the start of its
-- memory.
use stm32_os.Common.{ℕ, ◌+◌, [], ◌∷◌, ◌==◌, if◌then◌else◌, arith, refl, inl}
use stm32_os.Block.{Blocks}
use stm32_os.Cache.Holds.{Holds}
use stm32_os.Cache.Get.{Gets, kmem_get_from_block-Holds}
use stm32_os.Cache.Free.{Again, kmem_free-Again}

abbrev cache : ℕ
cache = 0x20003010

abbrev blocks : Blocks
blocks = record {
  size = λ x. if x == cache then 0x80000064 else 0x1000;
  start = λ x. if x == cache then cache + 32 else 0x20003000;
  end = λ x. if x == cache then cache + 132 else 0x20004000;
  work = record { next = λ x. x; previous = λ x. x };
  available_storage = λ x. 0xF6C;
  refered_number = λ x. 2;
  slob = λ x. cache;
  location = record { next = λ x. x; previous = λ x. x };
  owner = λ x. 5000;
  buddy_system_list = λ i. 0;
  slob_current = 5000;
  slob_partial = 0;
  clears = [];
  free_info_block = 0;
  unused_front = 0x20001000;
  unused_back = 0x20003000;
}

blocks-Holds : Holds blocks 5000 (cache ∷ [])
blocks-Holds = record {
  ring = (refl, (refl, tt), refl, (refl, refl));
  laid = (omega arith, refl, refl, omega arith);
  room = omega arith;
  small = omega arith;
  apart = inl (omega arith);
  first = omega arith;
}

kmem_get_from_block-Holds_example : Gets blocks 5000 50 (cache ∷ [])
kmem_get_from_block-Holds_example =
    kmem_get_from_block-Holds blocks 5000 50 (cache ∷ []) blocks-Holds (omega arith) (omega arith)
      (omega arith)

kmem_free-Again_example : Again blocks 5000 cache 60 (cache ∷ [])
kmem_free-Again_example =
    kmem_free-Again blocks 5000 cache 60 (cache ∷ []) blocks-Holds (omega arith) refl refl refl
      (omega arith) (omega arith) (omega arith) (omega arith) (omega arith) refl
