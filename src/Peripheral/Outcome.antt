-- ===== src/Peripheral/Outcome.antt =====
-- What a transfer returns where the driver succeeds or fails.
use stm32_os.Common.{ℕ, ◌≡◌}
use stm32_os.Device.{Request}
use stm32_os.Peripheral.{
  Peripheral, DriverState, ask, returned, shut_down, driver_read, driver_write,
}

module _ (World : Type 0) (peripheral_driver : Peripheral × World → Peripheral × World) where
  -- The driver succeeds, and is called once.
  pub driver_write-success :
      (src dest size : ℕ) (p p1 : Peripheral) (w w1 : World)
      → peripheral_driver (ask Request.write src dest size p, w) ≡ (p1, w1)
      → p1.peripheral_status ≡ DriverState.success
      → driver_write World peripheral_driver src dest size (p, w) ≡ (DriverState.success, p1, w1)
  unfolding driver_write
  driver_write-success src dest size p p1 w w1 step done = simp (step, done)

  pub driver_read-success :
      (buffer src size : ℕ) (p p1 : Peripheral) (w w1 : World)
      → peripheral_driver (ask Request.read buffer src size p, w) ≡ (p1, w1)
      → p1.peripheral_status ≡ DriverState.success
      → driver_read World peripheral_driver buffer src size (p, w) ≡ (DriverState.success, p1, w1)
  unfolding driver_read
  driver_read-success buffer src size p p1 w w1 step done = simp (step, done)

  -- The driver fails, and is called a second time.
  pub driver_write-io_error :
      (src dest size : ℕ) (p p1 : Peripheral) (w w1 : World)
      → peripheral_driver (ask Request.write src dest size p, w) ≡ (p1, w1)
      → p1.peripheral_status ≡ DriverState.io_error
      → driver_write World peripheral_driver src dest size (p, w)
        ≡ returned World peripheral_driver (shut_down World peripheral_driver (p1, w1))
  unfolding driver_write
  driver_write-io_error src dest size p p1 w w1 step failed = simp (step, failed)

  pub driver_read-io_error :
      (buffer src size : ℕ) (p p1 : Peripheral) (w w1 : World)
      → peripheral_driver (ask Request.read buffer src size p, w) ≡ (p1, w1)
      → p1.peripheral_status ≡ DriverState.io_error
      → driver_read World peripheral_driver buffer src size (p, w)
        ≡ returned World peripheral_driver (shut_down World peripheral_driver (p1, w1))
  unfolding driver_read
  driver_read-io_error buffer src size p p1 w w1 step failed = simp (step, failed)
