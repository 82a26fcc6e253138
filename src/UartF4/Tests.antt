-- ===== src/UartF4/Tests.antt =====
-- Witness of printing: "OK" by the DMA.
use stm32_os.Common.{ℕ, ◌+◌, ◌*◌, [], ◌∷◌, arith, refl}
use stm32_os.Dma.Stream.{Peripheral}
use stm32_os.UartF4.{Line}
use stm32_os.UartF4.Plain.{Printed, printf_-Printed}

abbrev stream_base : ℕ → ℕ → ℕ
stream_base c n = 0x40026010 + 0x400 * c + 0x18 * n

abbrev uart1 : Peripheral
uart1 = record {
  peripheral_data_reg_ptr = 0x40011004;
  dma_channel = 4;
  dma_stream_rx = stream_base 1 5;
  dma_stream_tx = stream_base 1 7;
}

abbrev quiet_line : Line
quiet_line = record {
  uart = record {
    rece_buff = λ i. 0;
    rece_offset = 0;
    buf = λ i. 0;
    print_current_buf = λ i. 0;
    print_buf_offset = 0;
    data_reg = 0;
    sent = [];
    reads = 0;
    brr = 0;
    cr1 = 0;
    cr2 = 0;
    cr3 = 0;
    data_reg_ptr = 0;
  };
  dma = record {
    registers = record { control = λ a. 0; count = λ a. 0; peripheral = λ a. 0; memory = λ a. 0 };
    complete_notify = λ c n. 0;
    error_notify = λ c n. 0;
    cleared = [];
    notified = [];
  };
}

printf_-Printed_example :
    Printed
      (λ a. [])
      stream_base
      (λ n. 0)
      0x08001000
      0x10000000
      uart1
      (79 ∷ 75 ∷ [])
      []
      quiet_line
      (λ a. 0)
printf_-Printed_example =
    printf_-Printed (λ a. []) stream_base (λ n. 0) 0x08001000 0x10000000 uart1 (79 ∷ 75 ∷ []) []
      quiet_line (λ a. 0) refl (omega arith) (omega arith) refl (λ e. omega arith)
      (λ e. omega arith) (λ e. omega arith) refl
