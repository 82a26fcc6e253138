-- ===== src/UartF4/Plain.antt =====
-- Printing a text without conversions by the DMA.
use stm32_os.Common.{
  ℕ, zero, suc, ◌+◌, ◌*◌, ◌%◌, ◌^◌, ◌≤◌, ◌<◌, ◌≡◌, ◌≢◌, inl, inr, Bool, true, false, some, List, [],
  ◌∷◌, if◌then◌else◌, ltb, arith, refl, sym, ◌∙◌, ap, subst, Bool-cases, ==-false, has, length,
}
use stm32_os.Queue.{Memory}
use stm32_os.Device.{device_uart_id}
use stm32_os.Dma.{enabled}
use stm32_os.Dma.Stream.{Dma, ExeState, Request, Peripheral, dma_peripheral_driver}
use stm32_os.Dma.Stream.Idle.{copying, dma_peripheral_driver-copying}
use stm32_os.Uart.{Uart}
use stm32_os.Uart.Print.{char_at, print_char}
use stm32_os.UartF4.{Line, line_size, convert, at_index, print_from, uart_driver, printf_}

char_at_plain : (fmt : List ℕ) (i : ℕ) → has 37 fmt ≡ false → char_at fmt i ≢ 37
char_at_plain [] i plain e = ground arith
char_at_plain (c ∷ fmt) zero plain e = ground arith
char_at_plain (c ∷ fmt) (suc i) plain e = char_at_plain fmt i (ground arith) e

at_index-plain :
    (string_at : ℕ → List ℕ) (fmt : List ℕ) (i : ℕ) (args : List ℕ) (u : Uart)
    → has 37 fmt ≡ false
    → at_index string_at fmt i args u ≡ some (i, args, u)
unfolding at_index
at_index-plain string_at fmt i args u plain =
    subst
      (λ (b : Bool).
        (if b then convert string_at fmt i args u else some (i, args, u)) ≡ some (i, args, u))
      (sym (==-false (char_at fmt i) 37 (char_at_plain fmt i plain))) refl

-- One round of the loop, and its end.
module _ (string_at : ℕ → List ℕ) (k : ℕ) (fmt : List ℕ) (i : ℕ) (args : List ℕ) (u : Uart)
    (plain : has 37 fmt ≡ false) where
  print_from-step :
      ltb i (length fmt) ≡ true
      → print_from string_at (suc k) fmt i args u
        ≡ print_from string_at k fmt (i + 1) args (print_char (char_at fmt i) u)
  unfolding print_from
  print_from-step e = rw (print_from, at_index-plain string_at fmt i args u plain, e) refl

  print_from-end : ltb i (length fmt) ≡ false → print_from string_at (suc k) fmt i args u ≡ some u
  unfolding print_from
  print_from-end e = rw (print_from, at_index-plain string_at fmt i args u plain, e) refl

-- The loop from index `i` on, which is the offset too.
record Typed (string_at : ℕ → List ℕ) (k : ℕ) (fmt : List ℕ) (i : ℕ) (args : List ℕ) (u : Uart)
    : Type 0 where
  after : Uart
  result : print_from string_at k fmt i args u ≡ some after
  offset : after.print_buf_offset ≡ length fmt
  text :
      (j : ℕ)
      → j < length fmt
      → after.print_current_buf j ≡ (if ltb j i then u.print_current_buf j else char_at fmt j)

print_from-Typed :
    (string_at : ℕ → List ℕ) (k : ℕ) (fmt : List ℕ) (i : ℕ) (args : List ℕ) (u : Uart)
    → has 37 fmt ≡ false
    → i ≤ length fmt
    → length fmt < i + k
    → length fmt < 2 ^ 32
    → u.print_buf_offset ≡ i
    → Typed string_at k fmt i args u
unfolding print_from
print_from-Typed string_at zero fmt i args u plain low fuel small at = ground arith
print_from-Typed string_at (suc k) fmt i args u plain low fuel small at =
    elim (Bool-cases (ltb i (length fmt))) [
      | inl e ↦
          let next : Uart = print_char (char_at fmt i) u in
          let inside : i < length fmt = ground arith in
          let rest =
            print_from-Typed string_at k fmt (i + 1) args next plain (omega arith) (omega arith)
              small (omega arith) in
          record {
            after = rest.after;
            result = print_from-step string_at k fmt i args u plain e ∙ rest.result;
            offset = rest.offset;
            text = λ j lt. rest.text j lt ∙ ground arith;
          }
      | inr e ↦ record {
        after = u;
        result = print_from-end string_at k fmt i args u plain e;
        offset = ground arith;
        text = λ j lt. ground arith;
      }
    ]

-- The state after `printf_` where the driver has left `s`.
abbrev reset : Line → Line
reset s = record s { uart = record (s.uart) { print_buf_offset = 0 } }

printf_-driver :
    (string_at : ℕ → List ℕ) (base : ℕ → ℕ → ℕ) (sr : ℕ → ℕ) (ptr print_buf0 : ℕ) (p : Peripheral)
    (fmt args : List ℕ) (s s1 : Line) (m : Memory) (u : Uart) (answer : ExeState)
    → print_from string_at (suc (length fmt)) fmt 0 args s.uart ≡ some u
    → uart_driver base sr ptr device_uart_id p print_buf0 u.print_buf_offset Request.write_asyn
        (record s { uart = u }, m)
      ≡ (answer, s1, m)
    → printf_ base sr string_at ptr print_buf0 p fmt args (s, m) ≡ some (reset s1, m)
unfolding printf_
printf_-driver string_at base sr ptr print_buf0 p fmt args s s1 m u answer typed served =
    rw (printf_, typed, served) refl

uart_driver-asyn :
    (base : ℕ → ℕ → ℕ) (sr : ℕ → ℕ) (ptr buff size : ℕ) (p : Peripheral) (s : Line) (d : Dma)
    (m : Memory)
    → buff ≢ 0
    → size ≢ 0
    → p.peripheral_data_reg_ptr ≢ 0
    → dma_peripheral_driver base ptr p buff size Request.write_asyn s.dma
      ≡ (ExeState.exe_success, d)
    → uart_driver base sr ptr device_uart_id p buff size Request.write_asyn (s, m)
      ≡ (ExeState.exe_success, record { uart = record (s.uart) { cr3 = 0x80 }; dma = d }, m)
unfolding uart_driver
uart_driver-asyn base sr ptr buff size p s d m nb nz nd begun =
    rw (==-false p.peripheral_data_reg_ptr 0 nd, ==-false buff 0 nb, ==-false size 0 nz, begun) refl

-- What a call of `printf_` with a plain text leaves: the text in the buffer, and the stream of the
-- serial line started on it.
pub record Printed (string_at : ℕ → List ℕ) (base : ℕ → ℕ → ℕ) (sr : ℕ → ℕ) (ptr print_buf0 : ℕ)
    (p : Peripheral) (fmt args : List ℕ) (s : Line) (m : Memory) : Type 0 where
  pub after : Line
  pub result : printf_ base sr string_at ptr print_buf0 p fmt args (s, m) ≡ some (after, m)
  pub text : (j : ℕ) → j < length fmt → after.uart.print_current_buf j ≡ char_at fmt j
  pub offset : after.uart.print_buf_offset ≡ 0
  pub transfer : after.dma ≡ record (s.dma) {
    registers =
        copying p.dma_stream_tx
          (0x456 + p.dma_channel * 2 ^ 25 % 2 ^ 32)
          (length fmt)
          p.peripheral_data_reg_ptr
          print_buf0
          s.dma.registers;
  }

-- `printf_` of a text that is not empty, fits into the buffer of 512 characters and has no `%`,
-- from an empty buffer, where the stream of the serial line is idle and no address is 0, ends: the
-- text stands in the buffer, and the stream is started to send it, with its length, from the buffer
-- to the data register.
pub printf_-Printed :
    (string_at : ℕ → List ℕ) (base : ℕ → ℕ → ℕ) (sr : ℕ → ℕ) (ptr print_buf0 : ℕ) (p : Peripheral)
    (fmt args : List ℕ) (s : Line) (m : Memory)
    → has 37 fmt ≡ false
    → 0 < length fmt
    → length fmt ≤ line_size
    → s.uart.print_buf_offset ≡ 0
    → ptr ≢ 0
    → print_buf0 ≢ 0
    → p.peripheral_data_reg_ptr ≢ 0
    → enabled s.dma.registers p.dma_stream_tx ≡ false
    → Printed string_at base sr ptr print_buf0 p fmt args s m
printf_-Printed string_at base sr ptr print_buf0 p fmt args s m plain some_text small empty nptr
      nbuf nreg idle =
    let typed =
      print_from-Typed string_at (suc (length fmt)) fmt 0 args s.uart plain (omega arith)
        (omega arith) (omega arith) empty in
    let sending : ℕ → Dma = λ n. record (s.dma) {
      registers =
          copying p.dma_stream_tx (0x456 + p.dma_channel * 2 ^ 25 % 2 ^ 32) n
            p.peripheral_data_reg_ptr print_buf0 s.dma.registers;
    } in
    let n : ℕ = typed.after.print_buf_offset in
    let size : n ≡ length fmt = typed.offset in
    let nsize : n ≢ 0 = λ e. omega arith in
    let begun =
      dma_peripheral_driver-copying base ptr p print_buf0 n s.dma nptr nbuf nreg nsize idle in
    let served =
      uart_driver-asyn base sr ptr print_buf0 n p (record s { uart = typed.after }) (sending n) m
        nbuf nsize nreg begun in
    let left : Line = record { uart = record (typed.after) { cr3 = 0x80 }; dma = sending n } in
    record {
      after = reset left;
      result =
          printf_-driver string_at base sr ptr print_buf0 p fmt args s left m (typed.after)
            ExeState.exe_success (typed.result) served;
      text = λ j lt. typed.text j lt ∙ ground arith;
      offset = refl;
      transfer = ap sending size;
    }
