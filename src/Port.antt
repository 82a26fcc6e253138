-- ===== src/Port.antt =====
-- port/os_port.h: the states and constants of the port, and 32-bit arithmetic; and the part of
-- the kernel memory allocator (memory_manage/memory_kmem.c) that its clients call.
pub mod Tests
use stm32_os.Common.{ℕ, ◌+◌, ◌-◌, ◌%◌, ◌^◌, Bool, true, false}

-- `OS_STATE`
pub data OsState : Type 0 where
  new ready sleeping wait_for_system_call busy_in_read busy_in_write busying blocked deleted :
      OsState

abbrev pub is_ready : OsState → Bool
is_ready OsState.ready = true
is_ready _ = false

abbrev pub is_sleeping : OsState → Bool
is_sleeping OsState.sleeping = true
is_sleeping _ = false

abbrev pub software_tim_id : ℕ
software_tim_id = 0xFEFEFEF0

abbrev pub thread_id : ℕ
thread_id = 0xFE00FEFE

abbrev pub queue_id : ℕ
queue_id = 0xFEFEFE20

abbrev pub os_success : ℕ
os_success = 0

-- The size of the RAM, SRAM_END - SRAM_START: fewer structures than this can exist.
abbrev pub sram_size : ℕ
sram_size = 0x5000

-- The results by which the sources report a refused call.
abbrev pub not_now : ℕ
not_now = 0xFFFFFF00

abbrev pub bad_argument : ℕ
bad_argument = 0xFFFFFFFF

-- `unsigned int` and `unsigned long` have 32 bits.
abbrev pub add32 : ℕ → ℕ → ℕ
add32 a b = (a + b) % 2 ^ 32

abbrev pub sub32 : ℕ → ℕ → ℕ
sub32 a b = (a + 2 ^ 32 - b) % 2 ^ 32

-- What the clients use of `KERNEL_MEMORY_CACHE`: `kmem_malloc` returns its address (0 is NULL),
-- `start` and `work_previous` are the fields of those names, `kmem_free` gives it back. `Store` is
-- the allocator's state.
pub record Kmem : Type 1 where
  pub Store : Type 0
  pub kmem_malloc : ℕ → Store → ℕ × Store
  pub start : ℕ → Store → ℕ
  pub work_previous : ℕ → Store → ℕ
  pub kmem_free : ℕ → Store → Store
