-- ===== src/UartF4.antt =====
-- Driver/F4/driver_UART.c: the serial line of the F4, which prints by the DMA. The arrays, the
-- conversion of numbers and the loops over the bytes are those of Driver/F1/driver_UART.c.
pub mod Plain
mod Tests
use stm32_os.Common.{
  ℕ, zero, suc, ◌+◌, ◌-◌, ◌/◌, ◌%◌, Bool, true, false, Option, none, some, List, ◌∷◌, ◌&&◌, ◌||◌,
  not, ◌==◌, leb, ltb, if◌then◌else◌, nonzero, update, length,
}
use stm32_os.Port.{add32}
use stm32_os.Queue.{Memory}
use stm32_os.Device.{device_uart_id, is_success}
use stm32_os.Dma.Stream.{Dma, ExeState, Request, Peripheral, dma_peripheral_driver}
use stm32_os.Uart.{Uart, uart_read, uart_write}
use stm32_os.Uart.Print.{char_at, first_arg, rest_args, print_char, print_string, printint}

-- UART_BUFF_SIZE
abbrev pub line_size : ℕ
line_size = 512

-- The serial line and the DMA. `rece_buff` stands for uart_buff, `rece_offset` for buff_offset, and
-- `print_current_buf` for the 512 elements of print_buf0. It is without end here: nothing stops the
-- source from writing behind them, which is not modelled, so a text has at most 512 characters.
pub record Line : Type 0 where
  pub uart : Uart
  pub dma : Dma

-- The interrupt: a character that was received is sent back.
pub usart1_irq_handler : (sr dr : ℕ) → Uart → Uart
usart1_irq_handler sr dr u =
    let at = if leb line_size u.rece_offset then line_size - 1 else u.rece_offset in
    if sr / 0x10 % 2 == 1 then u else record u {
      rece_buff = update u.rece_buff at (dr % 256);
      rece_offset = at + 1;
      data_reg = dr % 256;
      sent = (dr % 256) ∷ u.sent;
    }

abbrev pub started : ExeState → Bool
started ExeState.exe_success = true
started _ = false

-- The strings at their addresses.
module _ (string_at : ℕ → List ℕ) where
  -- What happens at index `i`, where a `%` is. A string moves the offset.
  pub convert : (fmt : List ℕ) (i : ℕ) (args : List ℕ) → Uart → Option (ℕ × List ℕ × Uart)
  convert fmt i args u =
      let c = char_at fmt (i + 1) in
      let text = string_at (first_arg args) in
      let copied = print_string text u in
      let print : ℕ → Option (ℕ × List ℕ × Uart) = λ base.
        elim (printint (first_arg args) base true u) [
          | none ↦ none
          | some u' ↦ some (i + 2, rest_args args, u')
        ] in
      if c == 100
      then print 10
      else if (c == 120) || (c == 112)
      then print 16
      else if c == 115
      then some (
        i + 2,
        rest_args args,
        record copied { print_buf_offset = add32 copied.print_buf_offset (length text) },
      )
      else some (i, args, u)

  -- The test for a `%` at index `i`.
  pub at_index : (fmt : List ℕ) (i : ℕ) (args : List ℕ) → Uart → Option (ℕ × List ℕ × Uart)
  at_index fmt i args u = if char_at fmt i == 37 then convert fmt i args u else some (i, args, u)

  -- The loop of `printf_`, at index `i`. `none` means that the fuel ran out.
  pub print_from : ℕ → (fmt : List ℕ) (i : ℕ) (args : List ℕ) → Uart → Option Uart
  print_from zero fmt i args u = none
  print_from (suc k) fmt i args u = elim (at_index fmt i args u) [
    | none ↦ none
    | some (j, args', u') ↦
        let on = print_from k fmt (j + 1) args' (print_char (char_at fmt j) u') in
        if ltb i (length fmt) then on else some u
  ]

-- `dma_stream_reg_base` gives the addresses of the streams, and `sr` what each read of SR reads.
module _ (dma_stream_reg_base : ℕ → ℕ → ℕ) (sr : ℕ → ℕ) where
  abbrev pub with_uart : Line → Uart → Line
  with_uart s u = record s { uart = u }

  -- `ptr` is the address of the peripheral, and `id` its number.
  pub uart_driver :
      (ptr id : ℕ)
      → Peripheral
      → (buff size : ℕ) → Request
      → Line × Memory
      → ExeState × Line × Memory
  uart_driver ptr id p buff size request (s, m) =
      let (state, read, m1) = uart_read buff size (s.uart, m) in
      let (written, wrote) = uart_write sr size buff (s.uart, m) in
      let on_dma = record (s.uart) { cr3 = 0x80 } in
      let (answer, dma) = dma_peripheral_driver dma_stream_reg_base ptr p buff size request s.dma in
      let asked = nonzero p.peripheral_data_reg_ptr && nonzero buff && nonzero size in
      if not (id == device_uart_id) then (ExeState.exe_para_error, s, m) else elim request [
        | Request.read_asyn ↦
            if asked
            then (ExeState.exe_success, with_uart s read, m1)
            else (ExeState.exe_para_error, s, m)
        | Request.read ↦
            if asked
            then (ExeState.exe_success, with_uart s read, m1)
            else (ExeState.exe_para_error, s, m)
        | Request.write ↦
            if asked
            then (
              if is_success written then ExeState.exe_success else ExeState.exe_device_error,
              with_uart s wrote,
              m,
            )
            else (ExeState.exe_para_error, s, m)
        | Request.write_asyn ↦
            if asked
            then (
              if started answer then ExeState.exe_success else ExeState.exe_device_error,
              record { uart = on_dma; dma = dma },
              m,
            )
            else (ExeState.exe_para_error, s, m)
        | Request.init ↦
            if nonzero p.peripheral_data_reg_ptr
            then (
              ExeState.exe_success,
              with_uart s (record (s.uart) { brr = 0x2D9; cr1 = 0x203C; cr2 = 0; cr3 = 0 }),
              m,
            )
            else (ExeState.exe_para_error, s, m)
      ]

  -- `print_buf0` is the address of the buffer that the DMA reads. What the driver answers is not
  -- looked at, and the offset is reset at once.
  pub printf_ :
      (string_at : ℕ → List ℕ) (ptr print_buf0 : ℕ)
      → Peripheral
      → (fmt args : List ℕ) → Line × Memory
      → Option (Line × Memory)
  printf_ string_at ptr print_buf0 p fmt args (s, m) =
      elim (print_from string_at (suc (length fmt)) fmt 0 args s.uart) [
        | none ↦ none
        | some u ↦
            let (answer, s1, m1) =
              uart_driver ptr device_uart_id p print_buf0 u.print_buf_offset Request.write_asyn
                (with_uart s u, m) in
            some (record s1 { uart = record (s1.uart) { print_buf_offset = 0 } }, m1)
      ]
