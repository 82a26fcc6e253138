-- ===== src/Bus/Spi/Tests.antt =====
-- Witness of the SPI: four bytes, with the flags always set.
use stm32_os.Common.{ℕ, ◌+◌, ◌%◌, [], refl}
use stm32_os.Dma.Channel.{Channels}
use stm32_os.Bus.Spi.{Spi}
use stm32_os.Bus.Spi.Exchange.{Exchanged, spi_driver-Exchanged}

abbrev ready : ℕ → ℕ
ready n = 0x03

abbrev answer : ℕ → ℕ
answer n = (n + 7) % 256

abbrev no_dma : Channels
no_dma = record {
  registers = record { control = λ a. 0; count = λ a. 0; peripheral = λ a. 0; memory = λ a. 0 };
  reg_base = λ c. c;
  complete_notify = λ c. 0;
  error_notify = λ c. 0;
  cleared = [];
  notified = [];
}

abbrev spi1 : Spi
spi1 = record {
  bus = record { memory = λ a. a % 256; events = []; reads = 0; received = 0 };
  cr1 = 0x33C;
  cr2 = 0x40;
  peripheral = record {
    peripheral_data_reg_ptr = 0x4001300C;
    dma_channel_rx = 0x20000100;
    dma_channel_tx = 0x20000120;
  };
  dma = no_dma;
}

spi_driver-Exchanged_example : Exchanged ready answer 0x20000000 0x4001300C 0x20000200 4 spi1
spi_driver-Exchanged_example =
    spi_driver-Exchanged ready answer 0x20000000 0x4001300C 0x20000200 4 spi1 (λ n. refl)
      (λ n. refl) (λ n. refl)
