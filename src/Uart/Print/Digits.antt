-- ===== src/Uart/Print/Digits.antt =====
-- printint prints a number so that its text can be read back.
use stm32_os.Common.{
  ℕ, zero, suc, ◌+◌, ◌-◌, ◌*◌, ◌/◌, ◌%◌, ◌^◌, ◌≤◌, ◌<◌, ◌≡◌, ◌≢◌, refl, sym, ap, ◌∙◌, subst, Option,
  none, some, arith, ◌==◌, ==-true, ==-false, Bool-cases, inl, inr, leb, if◌then◌else◌, true, false,
  update,
}
use stm32_os.Port.{add32, sub32}
use stm32_os.Uart.{Uart}
use stm32_os.Uart.Print.{digitals, put_digits, put_char, flush, print_word, printint}

-- 10 ^ d
abbrev limit : ℕ → ℕ
limit zero = 1
limit (suc d) = 10 * limit d

-- Reading a text: the value of a character and of `n` decimal digits from `p` on, and the word that
-- `n` characters stand for, which may begin with a minus sign.
abbrev pub digit_value : ℕ → ℕ
digit_value c = c - 48

abbrev pub value : (f : ℕ → ℕ) (p n : ℕ) → ℕ
value f p zero = 0
value f p (suc n) = 10 * value f p n + digit_value (f (p + n))

abbrev pub parse : (f : ℕ → ℕ) (p n : ℕ) → ℕ
parse f p n = if f p == 45 then sub32 0 (value f (p + 1) (n - 1)) else value f p n

value_ext :
    (f g : ℕ → ℕ) (p q n : ℕ)
    → ((j : ℕ) → j < n → f (p + j) ≡ g (q + j))
    → value f p n ≡ value g q n
value_ext f g p q zero same = refl
value_ext f g p q (suc n) same =
    let rest = value_ext f g p q n (λ j lt. same j (omega arith)) in
    let here = same n (omega arith) in rw (rest, here) refl

-- What `put_digits` leaves for `x`, from index `i` of `buf` downwards.
record Shown (k x i d : ℕ) (buf : ℕ → ℕ) : Type 0 where
  below : ℕ
  after : ℕ → ℕ
  result : put_digits k 10 x i buf ≡ some (below, after)
  count : ℕ
  place : below + count ≡ i
  any : 1 ≤ count
  few : count ≤ d
  shown : value after (below + 1) count ≡ x
  kept : (j : ℕ) → i < j → after j ≡ buf j
  digit : after (below + 1) ≢ 45

Shown-one :
    (k x i d : ℕ) (buf : ℕ → ℕ) → x / 10 ≡ 0 → 1 ≤ d → d ≤ i → i < 2 ^ 32 → Shown (suc k) x i d buf
unfolding put_digits
Shown-one k x i d buf last dpos di small = record {
  below = i - 1;
  after = update buf i (digitals (x % 10));
  result = let e : sub32 i 1 ≡ i - 1 = omega arith in rw (==-true (x / 10) 0 last, e) refl;
  count = 1;
  place = omega arith;
  any = omega arith;
  few = dpos;
  shown = ground arith;
  kept = λ j lt. ground arith;
  digit = ground arith;
}

Shown-more :
    (k x i d : ℕ) (buf : ℕ → ℕ)
    → x / 10 ≢ 0
    → suc d ≤ i
    → i < 2 ^ 32
    → Shown k (x / 10) (i - 1) d (update buf i (digitals (x % 10)))
    → Shown (suc k) x i (suc d) buf
unfolding put_digits
Shown-more k x i d buf more di small r =
    let e : sub32 i 1 ≡ i - 1 = omega arith in
    let place = r.place in
    let any = r.any in
    let few = r.few in
    let at : r.after i ≡ digitals (x % 10) = r.kept i (omega arith) ∙ ground arith in
    let where_i : r.below + 1 + r.count ≡ i = omega arith in
    let last : r.after (r.below + 1 + r.count) ≡ digitals (x % 10) = ap r.after where_i ∙ at in
    record {
      below = r.below;
      after = r.after;
      result = rw (==-false (x / 10) 0 more, e) (r.result);
      count = suc r.count;
      place = omega arith;
      any = omega arith;
      few = omega arith;
      shown = rw (r.shown, last) (ground arith);
      kept = λ j lt. r.kept j (omega arith) ∙ ground arith;
      digit = r.digit;
    }

more_digits : (x d : ℕ) → x / 10 ≢ 0 → x < limit (suc d) → 1 ≤ d
more_digits x zero more lt = omega arith
more_digits x (suc d) more lt = omega arith

put_digits-value :
    (k x i d : ℕ) (buf : ℕ → ℕ)
    → d ≤ k
    → 1 ≤ d
    → x < limit d
    → d ≤ i
    → i < 2 ^ 32
    → Shown k x i d buf
put_digits-value zero x i d buf dk dpos lt di small = ground arith
put_digits-value (suc k) x i zero buf dk dpos lt di small = ground arith
put_digits-value (suc k) x i (suc d) buf dk dpos lt di small = elim (Bool-cases (x / 10 == 0)) [
  | inl e ↦ Shown-one k x i (suc d) buf (ground arith) dpos di small
  | inr e ↦
      let more : x / 10 ≢ 0 = ground arith in
      let dp : 1 ≤ d = more_digits x d more lt in
      Shown-more k x i d buf more di small (
        put_digits-value k (x / 10) (i - 1) d (update buf i (digitals (x % 10))) (omega arith) dp
          (omega arith) (omega arith) (omega arith))
]

-- What `flush` prints from index `i` on of `buf`, by the characters.
flush-text :
    (i n : ℕ) (buf : ℕ → ℕ) (u : Uart) (j p q : ℕ)
    → i + n ≡ 19
    → j < n
    → p ≡ u.print_buf_offset + j
    → q ≡ i + 1 + j
    → (flush (i, buf) u).print_current_buf p ≡ buf q
flush-text i n buf u j p q sum lt ep eq =
    let e : sub32 19 i ≡ n = omega arith in
    let e' : add32 i 1 ≡ i + 1 = omega arith in rw (e, e') (ground arith)

flush-value :
    (i n : ℕ) (buf : ℕ → ℕ) (u : Uart) (j p q m : ℕ)
    → i + n ≡ 19
    → j + m ≤ n
    → p ≡ u.print_buf_offset + j
    → q ≡ i + 1 + j
    → value (flush (i, buf) u).print_current_buf p m ≡ value buf q m
flush-value i n buf u j p q m sum le ep eq =
    value_ext (flush (i, buf) u).print_current_buf buf p q m (λ k lt.
      flush-text i n buf u (j + k) (p + k) (q + k) sum (omega arith) (omega arith) (omega arith))

-- `parse` without and with a minus sign.
parse_plain : (f : ℕ → ℕ) (p n : ℕ) → f p ≢ 45 → parse f p n ≡ value f p n
parse_plain f p n plain = rw (==-false (f p) 45 plain) refl

parse_minus : (f : ℕ → ℕ) (p n : ℕ) → f p ≡ 45 → parse f p (n + 1) ≡ sub32 0 (value f (p + 1) n)
parse_minus f p n minus = let e : n + 1 - 1 ≡ n = omega arith in rw (==-true (f p) 45 minus, e) refl

-- A decimal call of `printint` is over, and this is what it printed.
pub record Printed (xx : ℕ) (u : Uart) : Type 0 where
  pub after : Uart
  pub result : printint xx 10 true u ≡ some after
  pub count : ℕ
  pub at_most : count ≤ 11
  pub offset : after.print_buf_offset ≡ u.print_buf_offset + count
  pub text : parse after.print_current_buf u.print_buf_offset count ≡ xx

flush-offset :
    (i n : ℕ) (buf : ℕ → ℕ) (u : Uart)
    → i + n ≡ 19
    → u.print_buf_offset + 19 < 2 ^ 32
    → (flush (i, buf) u).print_buf_offset ≡ u.print_buf_offset + n
flush-offset i n buf u sum room = omega arith

Printed-positive :
    (xx : ℕ) (u : Uart)
    → xx < 2 ^ 31
    → u.print_buf_offset + 19 < 2 ^ 32
    → Shown 32 xx 19 10 u.buf
    → Printed xx u
unfolding printint print_word
Printed-positive xx u lt room r =
    let place = r.place in
    let any = r.any in
    let few = r.few in
    let o = u.print_buf_offset in
    let f = (flush (r.below, r.after) u).print_current_buf in
    let first =
      flush-text r.below r.count r.after u 0 o (r.below + 1) place any (omega arith)
        (omega arith) in
    let same =
      flush-value r.below r.count r.after u 0 o (r.below + 1) r.count place (omega arith)
        (omega arith) (omega arith) in
    let pos : leb 0x80000000 xx ≡ false = ground arith in
    record {
      after = flush (r.below, r.after) u;
      result = ap (λ b. print_word b xx 10 u) pos ∙ rw (print_word, r.result) refl;
      count = r.count;
      at_most = omega arith;
      offset = flush-offset r.below r.count r.after u place room;
      text = parse_plain f o r.count (λ e. r.digit (sym first ∙ e)) ∙ same ∙ r.shown;
    }

print_word_minus :
    (xx x : ℕ) (u : Uart) (i : ℕ) (buf : ℕ → ℕ)
    → sub32 0 xx ≡ x
    → put_digits 32 10 x 19 u.buf ≡ some (i, buf)
    → sub32 i 1 ≡ i - 1
    → print_word true xx 10 u ≡ some (flush (i - 1, update buf i 45) u)
unfolding print_word
print_word_minus xx x u i buf word digits down =
    subst
      (λ y.
        print_word true xx 10 u
        ≡ elim y as (λ y. Option Uart) [ none ↦ none | some b ↦ some (flush (put_char 45 b) u) ])
      (ap (λ y. put_digits 32 10 y 19 u.buf) word ∙ digits) refl
    ∙ rw down refl

Printed-negative :
    (xx x : ℕ) (u : Uart)
    → sub32 0 xx ≡ x
    → 2 ^ 31 ≤ xx
    → xx < 2 ^ 32
    → u.print_buf_offset + 19 < 2 ^ 32
    → Shown 32 x 19 10 u.buf
    → Printed xx u
unfolding printint print_word
Printed-negative xx x u word ge lt room r =
    let place = r.place in
    let any = r.any in
    let few = r.few in
    let o = u.print_buf_offset in
    let neg : leb 0x80000000 xx ≡ true = ground arith in
    let b = update r.after r.below 45 in
    let f = (flush (r.below - 1, b) u).print_current_buf in
    let down : sub32 r.below 1 ≡ r.below - 1 = omega arith in
    let at : r.below - 1 + (r.count + 1) ≡ 19 = omega arith in
    let first =
      flush-text (r.below - 1) (r.count + 1) b u 0 o r.below at (omega arith) (omega arith)
        (omega arith) in
    let same =
      flush-value (r.below - 1) (r.count + 1) b u 1 (o + 1) (r.below + 1) r.count at (omega arith)
        (omega arith) (omega arith) in
    let above = value_ext b r.after (r.below + 1) (r.below + 1) r.count (λ j lt. ground arith) in
    let minus : f o ≡ 45 = first ∙ rw (==-true r.below r.below refl) refl in
    let total : sub32 0 x ≡ xx = omega arith in
    record {
      after = flush (r.below - 1, b) u;
      result =
          ap (λ b. print_word b xx 10 u) neg
          ∙ print_word_minus xx x u r.below r.after word r.result down;
      count = r.count + 1;
      at_most = omega arith;
      offset = flush-offset (r.below - 1) (r.count + 1) b u at room;
      text = parse_minus f o r.count minus ∙ ap (sub32 0) (same ∙ above ∙ r.shown) ∙ total;
    }

-- `printint` of a signed 32-bit word in base 10, where the offset does not wrap, ends and prints at
-- most 11 characters at the offset, which it moves behind them; read as a decimal number with an
-- optional minus sign, they give the word again.
pub printint-parse :
    (xx : ℕ) (u : Uart) → xx < 2 ^ 32 → u.print_buf_offset + 19 < 2 ^ 32 → Printed xx u
printint-parse xx u lt room = elim (Bool-cases (leb 0x80000000 xx)) [
  | inl e ↦ Printed-negative xx (sub32 0 xx) u refl (ground arith) lt room (
      put_digits-value 32 (sub32 0 xx) 19 10 u.buf (omega arith) (omega arith) (omega arith)
        (omega arith) (omega arith))
  | inr e ↦ Printed-positive xx u (ground arith) room (
      put_digits-value 32 xx 19 10 u.buf (omega arith) (omega arith) (ground arith) (omega arith)
        (omega arith))
]
