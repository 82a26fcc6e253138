-- ===== src/Dma/Stream.antt =====
-- Driver/F4/driver_DMA.c: two controllers, each with eight streams and their notifications.
pub mod Unit
pub mod Idle
pub mod Silent
mod Tests
use stm32_os.Common.{
  ℕ, zero, suc, ◌+◌, ◌-◌, ◌*◌, ◌/◌, ◌%◌, ◌^◌, Bool, true, false, Option, none, some, List, ◌∷◌,
  ◌&&◌, ◌||◌, not, ◌==◌, if◌then◌else◌, ltb, nonzero, update,
}
use stm32_os.Dma.{Registers, enabled, start}

-- DMA_STREAM_NUMBER
abbrev pub dma_stream_number : ℕ
dma_stream_number = 8

-- EXE_STATE and REQUEST of the F4.
pub data ExeState : Type 0 where
  exe_success exe_para_error exe_device_busying exe_device_error exe_unknow_error : ExeState

pub data Request : Type 0 where
  init read write read_asyn write_asyn : Request

-- A flag register that an interrupt reads, or the register that clears it: the first of a
-- controller for its streams 0 to 3, the other one for 4 to 7.
pub data FlagRegister : Type 0 where
  low high : (controller : ℕ) → FlagRegister

-- Of a peripheral the driver uses these fields.
pub record Peripheral : Type 0 where
  pub peripheral_data_reg_ptr : ℕ
  pub dma_channel : ℕ
  pub dma_stream_rx : ℕ
  pub dma_stream_tx : ℕ

-- The notifications of controller 0 and 1, by the number of the stream.
pub record Dma : Type 0 where
  pub registers : Registers
  pub complete_notify : ℕ → ℕ → ℕ  -- translate_complete_notify
  pub error_notify : ℕ → ℕ → ℕ  -- translate_error_notify
  pub cleared : List (FlagRegister × ℕ)  -- what was written to clear flags, the last one first
  pub notified : List ℕ  -- the calls of notifications, the last one first

abbrev pub update2 : (ℕ → ℕ → ℕ) → (i j v : ℕ) → ℕ → ℕ → ℕ
update2 f i j v = update f i (update (f i) j v)

-- The two low bits of ~(src ^ dest).
abbrev pub agreement : (src dest : ℕ) → ℕ
agreement src dest =
    (if src % 2 == dest % 2 then 1 else 0) + (if src / 2 % 2 == dest / 2 % 2 then 2 else 0)

-- The switch over the alignment: `align`, and what `size` is divided by.
abbrev pub alignment : (src dest : ℕ) → ℕ
alignment src dest = if agreement src dest == 1 then 1 else if agreement src dest == 3 then 2 else 0

-- The bit of the flag register at which the flags of a stream begin, for its number modulo 4.
abbrev pub shift_bits : ℕ → ℕ
shift_bits n = if n == 0 then 0 else if n == 1 then 6 else if n == 2 then 16 else 22

-- A notification is called unless it is NULL.
abbrev pub call : ℕ → List ℕ → List ℕ
call func calls = if nonzero func then func ∷ calls else calls

-- `dma_stream_reg_base` gives the address of each stream of each controller.
module _ (dma_stream_reg_base : (controller number : ℕ) → ℕ) where
  -- The first of `count` streams from `number` on that is not enabled, or the last one.
  pub idle_stream : (count number : ℕ) → Registers → ℕ
  idle_stream zero number r = dma_stream_reg_base 1 (number - 1)
  idle_stream (suc count) number r =
      let later = idle_stream count (number + 1) r in
      let at = dma_stream_reg_base 1 number in if not (enabled r at) then at else later

  pub dma_memory_driver : (src dest size : ℕ) → (is_write : Bool) → Dma → ℕ × Dma
  dma_memory_driver src dest size is_write s =
      let align = alignment src dest in
      let at = idle_stream dma_stream_number 0 s.registers in
      let control =
        (if is_write then 0x696 else 0x496) + 0x30000 + align * 0x800 + align * 0x2000 in
      let (started, registers) = start at control (size / 2 ^ align) src dest s.registers in
      if size == 0
      then (0, s)
      else if enabled s.registers at
      then (0, s)
      else (if started then at else 0, record s { registers = registers })

  -- A transfer by the stream at `at`.
  abbrev pub transfer : (at control count peripheral memory : ℕ) → Dma → ExeState × Dma
  transfer at control count peripheral memory s =
      let (started, registers) = start at control count peripheral memory s.registers in
      if enabled s.registers at then (ExeState.exe_device_busying, s) else (
        if started then ExeState.exe_success else ExeState.exe_unknow_error,
        record s { registers = registers },
      )

  -- `ptr` is the address of the peripheral.
  pub dma_peripheral_driver :
      (ptr : ℕ) → Peripheral → (buff size : ℕ) → Request → Dma → ExeState × Dma
  dma_peripheral_driver ptr p buff size request s =
      let channel = p.dma_channel * 2 ^ 25 % 2 ^ 32 in
      let address = p.peripheral_data_reg_ptr in
      if nonzero ptr && nonzero buff && nonzero size
      then elim request [
        | Request.read_asyn ↦ transfer p.dma_stream_rx (0x416 + channel) size address buff s
        | Request.write_asyn ↦ transfer p.dma_stream_tx (0x456 + channel) size address buff s
        | Request.init ↦ (ExeState.exe_para_error, s)
        | Request.read ↦ (ExeState.exe_para_error, s)
        | Request.write ↦ (ExeState.exe_para_error, s)
      ]
      else (ExeState.exe_para_error, s)

  -- The loop over the streams of a controller: the number of the stream at `at`, or 8.
  pub stream_number : (count number controller at : ℕ) → ℕ
  stream_number zero number controller at = number
  stream_number (suc count) number controller at =
      let later = stream_number count (number + 1) controller at in
      if at == dma_stream_reg_base controller number then number else later

  -- The two loops over all streams. `break` leaves the inner one only, so the number is the one of
  -- the search in the last controller, and the pointer always ends behind the array of the two.
  pub search : (at : ℕ) → ℕ
  search at = stream_number dma_stream_number 0 1 at

  -- A result of -1 is `false`, and `none` stands for a read or a write through the pointer, that is
  -- behind the array, after which nothing is known. All three pointers for the answer are given.
  pub dma_stream_state_get : (at : ℕ) → Option Bool
  dma_stream_state_get at =
      if (at == 0) || (search at == dma_stream_number) then some false else none

  pub dma_stream_func_set : (at complete_func error_func : ℕ) → Dma → Option (Bool × Dma)
  dma_stream_func_set at complete_func error_func s =
      if (at == 0) || (search at == dma_stream_number)
      then some (false, s)
      else if nonzero complete_func || nonzero error_func
      then none
      else some (true, s)

  pub dma_stream_func_clear :
      (at : ℕ) → (clear_complete_func clear_error_func : ℕ) → Dma → Option (Bool × Dma)
  dma_stream_func_clear at clear_complete_func clear_error_func s =
      if (at == 0) || (search at == dma_stream_number)
      then some (false, s)
      else if nonzero clear_complete_func || nonzero clear_error_func
      then none
      else some (true, s)

  -- `flags` is what the flag register of the stream reads. The stream is one of the controller's;
  -- for another one the source shifts by a number that was never set. From stream 4 on the number
  -- is less by 4, and it is this number that selects the notification.
  pub dma_irq_handler : (controller at flags : ℕ) → Dma → Dma
  dma_irq_handler controller at flags s =
      let found = stream_number dma_stream_number 0 controller at in
      let number = if ltb found 4 then found else found - 4 in
      let register =
        if ltb found 4 then FlagRegister.low controller else FlagRegister.high controller in
      let unit = 2 ^ shift_bits number in
      let stopped = record s {
        registers = record (s.registers) { control = update s.registers.control at 0 };
        cleared = (register, 0x10 * unit) ∷ s.cleared;
      } in
      if flags / (0x20 * unit) % 2 == 1
      then record stopped {
        cleared = (register, 0x20 * unit) ∷ stopped.cleared;
        notified = call (s.complete_notify controller number) s.notified;
      }
      else record stopped {
        cleared = (register, 0x08 * unit) ∷ stopped.cleared;
        notified = call (s.error_notify controller number) s.notified;
      }

  -- The interrupts of the streams, DMA1_Stream0_IRQHandler to DMA2_Stream7_IRQHandler.
  pub dma_stream_irq_handler : (controller number flags : ℕ) → Dma → Dma
  dma_stream_irq_handler controller number flags s =
      dma_irq_handler controller (dma_stream_reg_base controller number) flags s

-- DMA_init: the notifications of the first `count` streams are cleared.
pub dma_init : (count : ℕ) → Dma → Dma
dma_init zero s = s
dma_init (suc count) s =
    let before = dma_init count s in
    record before {
      complete_notify = update2 (update2 before.complete_notify 0 count 0) 1 count 0;
      error_notify = update2 (update2 before.error_notify 0 count 0) 1 count 0;
    }
