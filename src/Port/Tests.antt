-- ===== src/Port/Tests.antt =====
-- A kernel memory allocator for the tests: it gives 64 bytes each time, and the usable ones begin
-- 36 bytes behind the KERNEL_MEMORY_CACHE itself. It never runs out and takes nothing back.
use stm32_os.Common.{ℕ, ◌+◌}
use stm32_os.Port.{Kmem}

abbrev pub heap : Kmem
heap = record {
  Store = ℕ;
  kmem_malloc = λ n h. (h, h + 64);
  start = λ k h. k + 36;
  work_previous = λ k h. k;
  kmem_free = λ k h. h;
}
