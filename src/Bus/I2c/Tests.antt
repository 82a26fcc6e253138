-- ===== src/Bus/I2c/Tests.antt =====
-- Witness of the two-wire bus: three bytes to a device whose flags are all set.
use stm32_os.Common.{ℕ, ◌%◌, [], arith, refl}
use stm32_os.Device.{Request}
use stm32_os.Peripheral.{Peripheral, DriverState}
use stm32_os.Bus.I2c.{device_i2c_id, I2c}
use stm32_os.Bus.I2c.Sent.{Answers, Written, i2c_driver-Written}

abbrev all_set : ℕ → ℕ
all_set n = 0x87

abbrev i2c1 : Peripheral
i2c1 = record {
  peripheral_id = device_i2c_id;
  peripheral_request = Request.write;
  peripheral_status = DriverState.io_error;
  peripheral_operate_bytes = 3;
  peripheral_buffer = 0x20000000;
  peripheral_memory_buffer = 0;
  peripheral_memory_size = 0;
  peripheral_data_reg_ptr = 0x40005410;
  mode = 0;
  speed = 0;
  reg_base = 0x40005400;
  dma_channel_rx = 0;
  dma_channel_tx = 0;
  peripheral_complete_notify = 0x08000100;
  peripheral_error_notify = 0;
}

abbrev idle_bus : I2c
idle_bus = record {
  bus = record { memory = λ a. a % 256; events = []; reads = 0; received = 0 };
  notified = [];
}

all_set-Answers : Answers all_set
all_set-Answers = record { started = λ n. refl; addressed = λ n. refl; moved = λ n. refl }

i2c_driver-Written_example : Written all_set all_set (λ t. t) 0x40005410 i2c1 idle_bus
i2c_driver-Written_example =
    i2c_driver-Written all_set all_set (λ t. t) 0x40005410 i2c1 idle_bus all_set-Answers refl refl
      refl (omega arith)
