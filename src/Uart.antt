-- ===== src/Uart.antt =====
-- Driver/F1/driver_UART.c: the state, what is received from the serial line, and its driver.
pub mod Print
pub mod Receive
mod Tests
use stm32_os.Common.{
  ℕ, zero, suc, ◌+◌, ◌-◌, ◌*◌, ◌/◌, ◌%◌, ◌^◌, Bool, true, false, Option, none, some, List, [], ◌∷◌,
  ◌&&◌, ◌||◌, not, ◌==◌, leb, ltb, if◌then◌else◌, nonzero, update, length, get_elem?,
}
use stm32_os.Port.{add32, sub32}
use stm32_os.Queue.{Memory, memcpy}
use stm32_os.Device.{ExeState, Request, device_uart_id}

-- UART_BUFF_SIZE
abbrev pub uart_buff_size : ℕ
uart_buff_size = 256

-- The arrays are without end here; `print_current_buf` has uart_buff_size elements, and nothing
-- stops the source from writing behind them.
pub record Uart : Type 0 where
  pub rece_buff : ℕ → ℕ
  pub rece_offset : ℕ
  pub buf : ℕ → ℕ
  pub print_current_buf : ℕ → ℕ
  pub print_buf_offset : ℕ
  pub data_reg : ℕ  -- what was written to DR last
  pub sent : List ℕ  -- all that was written to DR, the last one first
  pub reads : ℕ  -- how often SR was read
  pub brr : ℕ
  pub cr1 : ℕ
  pub cr2 : ℕ
  pub cr3 : ℕ
  pub data_reg_ptr : ℕ  -- peripheral_data_reg_ptr

-- The interrupt of the serial line: an idle line (bit 4 of `sr`) is only acknowledged. An
-- element of `rece_buff` is an unsigned char, so it takes the low byte of what DR reads.
pub usart1_irq_handler : (sr dr : ℕ) → Uart → Uart
usart1_irq_handler sr dr u =
    let at = if leb uart_buff_size u.rece_offset then uart_buff_size - 1 else u.rece_offset in
    if sr / 0x10 % 2 == 1
    then u
    else record u { rece_buff = update u.rece_buff at (dr % 256); rece_offset = at + 1 }

-- The case READ of the driver: what was received is copied to `buff`.
pub uart_read : (buff size : ℕ) → Uart × Memory → ExeState × Uart × Memory
uart_read buff size (u, m) =
    let n = if ltb u.rece_offset size then u.rece_offset else size in
    (
      ExeState.exe_success,
      record u { rece_offset = 0 },
      λ a. if leb buff a && ltb a (buff + n) then u.rece_buff (a - buff) else m a,
    )

-- `sr` gives what each read of SR reads.
module _ (sr : ℕ → ℕ) where
  -- The loop of DELAY, of at most `times` reads, while bit 7 is not set.
  pub wait : (times : ℕ) → Uart → Uart
  wait zero u = u
  wait (suc times) u =
      let u' = record u { reads = u.reads + 1 } in
      let more = wait times u' in if sr u.reads / 0x80 % 2 == 0 then more else u'

  -- The case WRITE, from byte `at` on.
  pub uart_write : (count : ℕ) (at : ℕ) → Uart × Memory → ExeState × Uart
  uart_write zero at (u, m) = (ExeState.exe_success, u)
  uart_write (suc count) at (u, m) =
      let waited = wait 0x1000 u in
      let u1 = record waited { reads = waited.reads + 1 } in
      let more =
        uart_write count (at + 1) (record u1 { data_reg = m at; sent = m at ∷ u1.sent }, m) in
      if sr waited.reads / 0x80 % 2 == 0 then (ExeState.exe_dev_error, u1) else more

  -- The guard of the driver: bit 7 is not set, or bit 5 is, which a second read of SR shows.
  pub busy : Uart → Bool × Uart
  busy u =
      let u1 = record u { reads = u.reads + 1 } in
      if sr u.reads / 0x80 % 2 == 0
      then (true, u1)
      else (sr u1.reads / 0x20 % 2 == 1, record u1 { reads = u1.reads + 1 })

  -- `dma_driver` is the driver of the DMA with its arguments `buff` and `size`, and `dr` the
  -- address of the register DR. READ_ASYN is served as READ.
  pub uart_driver :
      (dma_driver : ℕ → ℕ → ExeState)
      → (dr peripheral_id buff size : ℕ) → Request
      → Uart × Memory
      → ExeState × Uart × Memory
  uart_driver dma_driver dr peripheral_id buff size request (u, m) =
      let (is_busy, u1) = busy u in
      if not (peripheral_id == device_uart_id)
      then (ExeState.exe_para_error, u, m)
      else if is_busy
      then (ExeState.exe_dev_busying, u1, m)
      else elim request [
        | Request.read_asyn ↦ uart_read buff size (u1, m)
        | Request.read ↦ uart_read buff size (u1, m)
        | Request.write ↦ let (state, u2) = uart_write size buff (u1, m) in (state, u2, m)
        | Request.write_asyn ↦ (dma_driver buff size, u1, m)
        | Request.init ↦ (
          ExeState.exe_success,
          record u1 { brr = 0x271; cr1 = 0x203C; cr2 = 0; cr3 = 0xC0; data_reg_ptr = dr },
          m,
        )
        | Request.uninit ↦ (ExeState.exe_success, u1, m)
      ]
