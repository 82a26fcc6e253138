-- ===== src/Uart/Print.antt =====
-- Driver/F1/driver_UART.c: printing into print_current_buf.
pub mod Digits
use stm32_os.Common.{
  ℕ, zero, suc, ◌+◌, ◌-◌, ◌/◌, ◌%◌, ◌^◌, Bool, true, Option, none, some, List, [], ◌∷◌, ◌&&◌, ◌||◌,
  ◌==◌, leb, ltb, if◌then◌else◌, update, length, get_elem?,
}
use stm32_os.Port.{add32, sub32}
use stm32_os.Uart.{Uart}

-- digitals[]
abbrev pub digitals : ℕ → ℕ
digitals d = if ltb d 10 then 48 + d else 55 + d

-- memcpy(to + offset, from + first, n) between two arrays.
abbrev pub copy_array : (to : ℕ → ℕ) (offset : ℕ) (from : ℕ → ℕ) (first n : ℕ) → ℕ → ℕ
copy_array to offset from first n i =
    if leb offset i && ltb i (offset + n) then from (first + (i - offset)) else to i

-- The do-while loop of `printint`: the index below the digits, and the array. `none` means that the
-- fuel ran out.
pub put_digits : ℕ → (base x i : ℕ) → (ℕ → ℕ) → Option (ℕ × (ℕ → ℕ))
put_digits zero base x i buf = none
put_digits (suc k) base x i buf =
    let buf' = update buf i (digitals (x % base)) in
    let more = put_digits k base (x / base) (sub32 i 1) buf' in
    if x / base == 0 then some (sub32 i 1, buf') else more

-- buf[i--] = c;
abbrev pub put_char : ℕ → ℕ × (ℕ → ℕ) → ℕ × (ℕ → ℕ)
put_char c (i, buf) = (sub32 i 1, update buf i c)

-- The end of `printint`: the characters behind index `i` of `buf` are printed.
abbrev pub flush : ℕ × (ℕ → ℕ) → Uart → Uart
flush (i, buf) u = record u {
  buf = buf;
  print_current_buf =
      copy_array u.print_current_buf u.print_buf_offset buf (add32 i 1) (sub32 19 i);
  print_buf_offset = add32 u.print_buf_offset (sub32 19 i);
}

-- `printint` where its test for a negative number gave `negative`.
pub print_word : (negative : Bool) (xx base : ℕ) → Uart → Option Uart
print_word negative xx base u =
    elim (put_digits 32 base (if negative then sub32 0 xx else xx) 19 u.buf) [
      | none ↦ none
      | some b ↦
          let b1 = if base == 16 then put_char 48 (put_char 120 b) else b in
          some (flush (if negative then put_char 45 b1 else b1) u)
    ]

-- `xx` is given as its 32 bits: from 2 ^ 31 on it stands for a negative number.
pub printint : (xx base : ℕ) (sign : Bool) → Uart → Option Uart
printint xx base sign u = print_word (sign && leb 0x80000000 xx) xx base u

-- print_current_buf[print_buf_offset] = c; print_buf_offset ++;
abbrev pub print_char : ℕ → Uart → Uart
print_char c u = record u {
  print_current_buf = update u.print_current_buf u.print_buf_offset c;
  print_buf_offset = add32 u.print_buf_offset 1;
}

-- A string is the list of its characters; what follows them is 0.
abbrev pub char_at : List ℕ → ℕ → ℕ
char_at s i = elim (get_elem? s i) [ none ↦ 0 | some c ↦ c ]

abbrev pub from_list : List ℕ → ℕ → ℕ
from_list s i = char_at s i

-- va_arg; a call without enough arguments is not defined in C, here it reads 0.
abbrev pub first_arg : List ℕ → ℕ
first_arg [] = 0
first_arg (a ∷ rest) = a

abbrev pub rest_args : List ℕ → List ℕ
rest_args [] = []
rest_args (a ∷ rest) = rest

-- The case for a string: it is copied, but the offset stays.
abbrev pub print_string : List ℕ → Uart → Uart
print_string s u = record u {
  print_current_buf = copy_array u.print_current_buf u.print_buf_offset (from_list s) 0 (length s);
}

module _ (string_at : ℕ → List ℕ) where
  -- What happens at index `i`, where a `%` is: the new index, the arguments that are left, and the
  -- state.
  pub convert : (fmt : List ℕ) (i : ℕ) (args : List ℕ) → Uart → Option (ℕ × List ℕ × Uart)
  convert fmt i args u =
      let c = char_at fmt (i + 1) in
      let print : ℕ → Option (ℕ × List ℕ × Uart) = λ base.
        elim (printint (first_arg args) base true u) [
          | none ↦ none
          | some u' ↦ some (i + 2, rest_args args, u')
        ] in
      if c == 100
      then print 10
      else if (c == 120) || (c == 112)
      then print 16
      else if c == 115
      then some (i + 2, rest_args args, print_string (string_at (first_arg args)) u)
      else some (i, args, u)

  -- The loop of `printf_`, at index `i`.
  pub print_from : ℕ → (fmt : List ℕ) (i : ℕ) (args : List ℕ) → Uart → Option Uart
  print_from zero fmt i args u = none
  print_from (suc k) fmt i args u =
      elim (if char_at fmt i == 37 then convert fmt i args u else some (i, args, u)) [
        | none ↦ none
        | some (j, args', u') ↦
            let on = print_from k fmt (j + 1) args' (print_char (char_at fmt j) u') in
            if ltb i (length fmt) then on else some u
      ]

  -- The size that is given to the driver with `print_current_buf`, and the state.
  pub printf_ : (fmt args : List ℕ) → Uart → Option (ℕ × Uart)
  printf_ fmt args u = elim (print_from (suc (length fmt)) fmt 0 args u) [
    | none ↦ none
    | some u' ↦ some (u'.print_buf_offset, record u' { print_buf_offset = 0 })
  ]
