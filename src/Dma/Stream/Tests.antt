-- ===== src/Dma/Stream/Tests.antt =====
-- Witnesses of the streams, at the addresses that they have in the controller.
use stm32_os.Common.{ℕ, ◌+◌, ◌*◌, ◌≡◌, true, [], arith, refl, if◌then◌else◌, ltb}
use stm32_os.Dma.{Registers}
use stm32_os.Dma.Stream.{Dma, dma_memory_driver, dma_stream_irq_handler}
use stm32_os.Dma.Stream.Idle.{CopyStarted, dma_memory_driver-first}
use stm32_os.Dma.Stream.Silent.{
  Separate, told, Lost, dma_stream_irq_handler-told, dma_stream_func_set-Lost,
}

abbrev stream_base : ℕ → ℕ → ℕ
stream_base c n = 0x40026010 + 0x400 * c + 0x18 * n

stream_base-Separate : Separate stream_base
stream_base-Separate = record {
  some_address = λ c n e. omega arith;
  injective = λ c n d k lc ln ld lk e. (omega arith, omega arith);
}

-- The first two streams of the second controller are enabled.
abbrev two_taken : Registers
two_taken = record {
  control = λ a. if ltb a 0x40026440 then 1 else 0;
  count = λ a. 0;
  peripheral = λ a. 0;
  memory = λ a. 0;
}

abbrev at_reset : Dma
at_reset = record {
  registers = two_taken;
  complete_notify = λ c n. 0x08000100;
  error_notify = λ c n. 0x08000200;
  cleared = [];
  notified = [];
}

dma_memory_driver-first_example :
    CopyStarted stream_base 0x20000000 0x20000102 16 2 true at_reset
      (dma_memory_driver stream_base 0x20000000 0x20000102 16 true at_reset)
dma_memory_driver-first_example =
    dma_memory_driver-first stream_base 0x20000000 0x20000102 16 2 true at_reset (λ e. omega arith)
      (λ e. omega arith) (λ e. omega arith) (omega arith) (omega arith) (λ j small. ground arith)
      refl

dma_stream_irq_handler-told_example :
    dma_stream_irq_handler stream_base 0 5 0x800 at_reset ≡ told stream_base 0 5 0x800 at_reset
dma_stream_irq_handler-told_example =
    dma_stream_irq_handler-told stream_base 0 5 0x800 at_reset stream_base-Separate (omega arith)
      (omega arith)

-- A notification for stream 0 of the second controller.
dma_stream_func_set-Lost_example : Lost stream_base 1 0 0x08000300 0 at_reset
dma_stream_func_set-Lost_example =
    dma_stream_func_set-Lost stream_base 1 0 0x08000300 0 at_reset stream_base-Separate
      (omega arith) (omega arith) (λ e. omega arith)
