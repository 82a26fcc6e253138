-- ===== src/Uart/Tests.antt =====
-- A serial line that received nothing yet, and has printed three characters.
use stm32_os.Common.{ℕ, List, [], ◌∷◌, arith, refl}
use stm32_os.Queue.{Memory}
use stm32_os.Uart.{Uart, uart_read}
use stm32_os.Uart.Print.Digits.{Printed, printint-parse}
use stm32_os.Uart.Receive.{Read, interrupts, uart_read-line}

abbrev idle : Uart
idle = record {
  rece_buff = λ i. 0;
  rece_offset = 0;
  buf = λ i. 0;
  print_current_buf = λ i. 65;
  print_buf_offset = 3;
  data_reg = 0;
  sent = [];
  reads = 0;
  brr = 0;
  cr1 = 0;
  cr2 = 0;
  cr3 = 0;
  data_reg_ptr = 0;
}

-- -42
printint-parse_example : Printed 0xFFFFFFD6 idle
printint-parse_example = printint-parse 0xFFFFFFD6 idle (omega arith) (omega arith)

-- Two characters, with an idle interrupt between them.
abbrev events : List (ℕ × ℕ)
events = (0x20, 72) ∷ (0x10, 0) ∷ (0x20, 105) ∷ []

abbrev memory : Memory
memory = λ a. 0

uart_read-line_example :
    Read
      (72 ∷ 105 ∷ [])
      (λ i. 0)
      memory
      500
      10
      (uart_read 500 10 (interrupts events idle, memory)).1
      (uart_read 500 10 (interrupts events idle, memory)).2
uart_read-line_example = uart_read-line events idle memory 500 10 refl
