-- ===== src/Thread/Manage/Build.antt =====
-- `os_build_stack`: the frame that a new thread starts from.
use stm32_os.Common.{ℕ, ◌+◌, ◌-◌, ◌%◌, ◌≤◌, ◌<◌, ◌≡◌, arith}
use stm32_os.Thread.{Threads}
use stm32_os.Thread.Manage.{os_build_stack, stack_top, initial_xpsr}

-- What `os_build_stack` leaves, from the stack pointer up: eight words that the first switch loads
-- into R4 to R11, and the frame that the processor takes up: R0, R1, R2, R3, R12, LR, PC, xPSR.
pub record IsFrame (word : ℕ → ℕ) (sp r0 lr pc : ℕ) : Type 0 where
  pub argument : word (sp + 32) ≡ r0
  pub scratch :
      (word (sp + 36) ≡ 0) × (word (sp + 40) ≡ 0) × (word (sp + 44) ≡ 0) × (word (sp + 48) ≡ 0)
  pub link : word (sp + 52) ≡ lr
  pub entry : word (sp + 56) ≡ pc
  pub status : word (sp + 60) ≡ initial_xpsr

-- On a cleared thread the frame is complete: the thread enters its function with its argument and
-- returns into `thread_return_handle`. The stack pointer is a multiple of 8, the frame and the
-- eight words below it lie inside the stack of 256 words, and no word outside that is written.
pub os_build_stack-IsFrame :
    (on_return thread : ℕ) (s : Threads)
    → ((a : ℕ) → thread + 16 ≤ a → a < thread + 1040 → s.word a ≡ 0)
    → IsFrame
        (os_build_stack on_return thread s).0
        (os_build_stack on_return thread s).1
        (s.input_para thread)
        on_return
        (s.func thread)
      × ((os_build_stack on_return thread s).1 % 8 ≡ 0)
      × (thread + 16 ≤ (os_build_stack on_return thread s).1)
      × ((os_build_stack on_return thread s).1 + 64 ≤ thread + 1040)
      × ((a : ℕ) → a < thread + 16 → (os_build_stack on_return thread s).0 a ≡ s.word a)
      × ((a : ℕ) → thread + 1040 ≤ a → (os_build_stack on_return thread s).0 a ≡ s.word a)
unfolding os_build_stack
os_build_stack-IsFrame on_return thread s clear = (
  record {
    argument = ground arith;
    scratch = (
      ground (arith, clear (stack_top thread - 28)),
      ground (arith, clear (stack_top thread - 24)),
      ground (arith, clear (stack_top thread - 20)),
      ground (arith, clear (stack_top thread - 16)),
    );
    link = ground arith;
    entry = ground arith;
    status = ground arith;
  },
  omega arith,
  omega arith,
  omega arith,
  λ a lt. ground arith,
  λ a le. ground arith,
)
