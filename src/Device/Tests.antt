-- ===== src/Device/Tests.antt =====
-- A device at 100 on a peripheral at 200, whose driver counts its calls and succeeds.
use stm32_os.Common.{ℕ, ◌+◌, [], arith}
use stm32_os.Device.{ExeState, Request, Devices}
use stm32_os.Device.Notify.{session, Told, session-Told}

abbrev counting : ℕ → ℕ → ℕ → Request → ℕ → ExeState × ℕ
counting peripheral buff size request calls = (ExeState.exe_success, calls + 1)

abbrev devices : Devices ℕ
devices = record {
  mode = λ p. 0;
  peripheral_ptr = λ p. 0;
  complete_notify = λ p. 0;
  error_notify = λ p. 0;
  dma_channel_rx = λ p. 0;
  dma_channel_tx = λ p. 0;
  channel_complete = λ p. 0;
  channel_error = λ p. 0;
  hardware = 0;
  notified = [];
}

session-Told_example :
    Told ℕ counting 100 200 7 9 500 4 Request.write devices
      (session ℕ counting 100 200 1 7 9 500 4 Request.write devices)
session-Told_example =
    session-Told ℕ counting 100 200 1 7 9 500 4 Request.write devices (omega arith) (omega arith)
