-- ===== src/Bus.antt =====
-- The drivers of the two-wire bus (Driver/driver_I2C.c, child I2c) and of the SPI
-- (Driver/F1/driver_SPI.c and Driver/F4/driver_SPI.c, child Spi): what they do to the bus, and the
-- macro DELAY with which they wait for a flag.
pub mod I2c
pub mod Spi
use stm32_os.Common.{
  ℕ, zero, suc, ◌+◌, ◌/◌, ◌%◌, Bool, true, false, List, [], ◌∷◌, ◌++◌, ◌==◌, if◌then◌else◌,
}
use stm32_os.Queue.{Memory}

-- What a driver does to the bus: the bits START and STOP, and the bytes that it writes to DR.
pub data Event : Type 0 where
  start stop : Event
  byte : ℕ → Event

-- The memory with the buffers, the events in order, and how often the status register
-- and the data register were read.
pub record Bus : Type 0 where
  pub memory : Memory
  pub events : List Event
  pub reads : ℕ
  pub received : ℕ

abbrev pub put : Event → Bus → Bus
put e s = record s { events = s.events ++ e ∷ [] }

-- `status` gives what each read of the status register reads.
module _ (status : ℕ → ℕ) where
  abbrev pub flag : (unit n : ℕ) → Bool
  flag unit n = status n / unit % 2 == 1

  -- The loop of DELAY: the number of the reads after it, for at most `times` reads from `n` on
  -- while the flag is not set.
  pub wait : (times unit n : ℕ) → ℕ
  wait zero unit n = n
  wait (suc times) unit n =
      let more = wait times unit (n + 1) in if flag unit n then n + 1 else more

  -- The macro: whether the flag is set at the read after the loop.
  unfoldable pub delay : (times unit : ℕ) → Bus → Bool × Bus
  delay times unit s = let n = wait times unit s.reads in (flag unit n, record s { reads = n + 1 })
