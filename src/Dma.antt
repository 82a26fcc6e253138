-- ===== src/Dma.antt =====
-- The drivers of the DMA: the registers of a channel or stream, which all three drivers set alike.
-- The children are Driver/F4/driver_DMA.c (Stream), Driver/F1/driver_DMA.c (Channel) and
-- Driver/driver_DMA.c (Control).
pub mod Channel
pub mod Control
pub mod Stream
use stm32_os.Common.{ℕ, ◌+◌, ◌%◌, Bool, true, false, ◌&&◌, ◌==◌, if◌then◌else◌, nonzero, update}

-- The registers at the address of a channel or stream. They read as what was written to them; the
-- count has 16 bits, so for a larger one that is not so.
pub record Registers : Type 0 where
  pub control : ℕ → ℕ  -- CR or CCR
  pub count : ℕ → ℕ  -- NDTR or CNDTR
  pub peripheral : ℕ → ℕ  -- PAR or CPAR
  pub memory : ℕ → ℕ  -- M0AR or CMAR

-- Bit 0 of the control register is set while a transfer runs.
abbrev pub enabled : Registers → ℕ → Bool
enabled r at = r.control at % 2 == 1

abbrev pub enable : ℕ → ℕ
enable control = if control % 2 == 1 then control else control + 1

-- The registers are set, and bit 0 after them, if neither of the two addresses reads as 0.
pub start : (at control count peripheral memory : ℕ) → Registers → Bool × Registers
start at control count peripheral memory r =
    let set : Registers = record {
      control = update r.control at control;
      count = update r.count at count;
      peripheral = update r.peripheral at peripheral;
      memory = update r.memory at memory;
    } in
    if nonzero (set.memory at) && nonzero (set.peripheral at)
    then (true, record set { control = update set.control at (enable (set.control at)) })
    else (false, set)
