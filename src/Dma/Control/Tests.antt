-- ===== src/Dma/Control/Tests.antt =====
-- Witness of the channels with a peripheral: a read on the fourth one, whose interrupt reports
-- success.
use stm32_os.Common.{ℕ, ◌+◌, ◌*◌, []}
use stm32_os.Device.{Request}
use stm32_os.Peripheral.{Peripheral, DriverState}
use stm32_os.Dma.Control.{Control}
use stm32_os.Dma.Control.Delivered.{Delivered}

abbrev channel_at : ℕ → ℕ
channel_at k = 0x20000100 + 32 * k

abbrev reader : Peripheral
reader = record {
  peripheral_id = 0xFEFEFE20;
  peripheral_request = Request.read_asyn;
  peripheral_status = DriverState.io_error;
  peripheral_operate_bytes = 512;
  peripheral_buffer = 0x20001000;
  peripheral_memory_buffer = 0;
  peripheral_memory_size = 0;
  peripheral_data_reg_ptr = 0x4001300C;
  mode = 0;
  speed = 0;
  reg_base = 0x40013000;
  dma_channel_rx = channel_at 3;
  dma_channel_tx = channel_at 4;
  peripheral_complete_notify = 0x08000300;
  peripheral_error_notify = 0;
}

abbrev after_init : Control
after_init = record {
  registers = record { control = λ a. 0; count = λ a. 0; peripheral = λ a. 0; memory = λ a. 0 };
  reg_base = λ c. 0x40020008 + c;
  channel_request = λ c. Request.uninit;
  channel_status = λ c. DriverState.io_error;
  used_peripheral = λ c. 0;
  complete_notify = λ c. 0x08000100;
  error_notify = λ c. 0;
  peripheral = λ p. reader;
  cleared = [];
  notified = [];
}
