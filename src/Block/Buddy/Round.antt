-- ===== src/Block/Buddy/Round.antt =====
-- NORMALIZE_SIZE of memory_manage/memory_block.h: where its loop ends, and the power of two that it
-- gives.
use stm32_os.Common.{
  ℕ, zero, suc, ◌+◌, ◌-◌, ◌*◌, ◌%◌, ◌^◌, ◌≤◌, ◌<◌, ◌≡◌, ◌≢◌, ◌↔◌, refl, ap, ◌∙◌, some, none, arith,
  subst, ◌==◌, ==-false, Bool-cases, inl, inr, leb, if◌then◌else◌, nonzero, true, false,
}
use stm32_os.Port.{sub32}
use stm32_os.Block.Buddy.{shift_up, normalize_size}

pub pow_twice : (e : ℕ) → 2 ^ (e + 1) ≡ 2 * 2 ^ e
pow_twice e = let z : e + 1 ≡ suc e = omega arith in rw z (omega arith)

pow_mono : (e d : ℕ) → 2 ^ e ≤ 2 ^ (d + e)
pow_mono e zero = let z : zero + e ≡ e = omega arith in rw z (omega arith)
pow_mono e (suc d) =
    let z : suc d + e ≡ suc (d + e) = omega arith in rw z (omega (arith, pow_mono e d))

pub pow_at_most : (b m : ℕ) → b ≤ m → 2 ^ b ≤ 2 ^ m
pow_at_most b m le =
    let z : m - b + b ≡ m = omega arith in subst (λ t. 2 ^ b ≤ 2 ^ t) z (pow_mono b (m - b))

-- The highest bit of a number that is not 0.
record HighestBit (n m : ℕ) : Type 0 where
  bit : ℕ
  below : bit < m
  low : 2 ^ bit ≤ n
  high : n < 2 * 2 ^ bit

highest_bit_lem : (n m : ℕ) → n ≢ 0 → n < 2 ^ m → HighestBit n m
highest_bit_lem n zero pos lt = ground arith
highest_bit_lem n (suc m) pos lt = elim (Bool-cases (leb (2 ^ m) n)) [
  | inl e ↦ record { bit = m; below = omega arith; low = ground arith; high = omega arith }
  | inr e ↦
      let b = highest_bit_lem n m pos (ground arith) in
      let lt' = b.below in record { bit = b.bit; below = omega arith; low = b.low; high = b.high }
]

-- Where the loop ends: `size`, with highest bit `b`, comes with the number `e + d`.
record Shifted (k e d b size : ℕ) : Type 0 where
  rest : ℕ
  result : shift_up k (e + d) size ≡ some (e, rest)
  low : 2 ^ 31 ≤ rest
  high : rest < 2 ^ 32
  exact : (rest ≡ 2 ^ 31) ↔ (size ≡ 2 ^ b)

Shifted-last :
    (k e b size : ℕ) → b ≡ 31 → 2 ^ b ≤ size → size < 2 * 2 ^ b → Shifted (suc k) e 0 b size
unfolding shift_up
Shifted-last k e b size last low high =
    let p : 2 ^ b ≡ 2 ^ 31 = ap (λ t. 2 ^ t) last in
    let top : leb 0x80000000 size ≡ true = ground arith in
    let z : e + 0 ≡ e = omega arith in
    record {
      rest = size;
      result = rw (z, top) refl;
      low = omega arith;
      high = omega arith;
      exact = (λ h. omega arith, λ h. omega arith);
    }

Shifted-more :
    (k e d b size : ℕ)
    → e + suc d < 2 ^ 32
    → size < 2 ^ 31
    → Shifted k e d (suc b) (size * 2)
    → Shifted (suc k) e (suc d) b size
unfolding shift_up
Shifted-more k e d b size small less s =
    let top : leb 0x80000000 size ≡ false = ground arith in
    let down : sub32 (e + suc d) 1 ≡ e + d = omega arith in
    let double : size * 2 % 2 ^ 32 ≡ size * 2 = omega arith in
    let (to, from) = s.exact in
    record {
      rest = s.rest;
      result = rw (top, down, double) (s.result);
      low = s.low;
      high = s.high;
      exact = (λ h. omega (arith, to h), λ h. from (omega arith));
    }

shift_up-Shifted :
    (k e d b size : ℕ)
    → d < k
    → e + d < 2 ^ 32
    → b + d ≡ 31
    → 2 ^ b ≤ size
    → size < 2 * 2 ^ b
    → Shifted k e d b size
shift_up-Shifted zero e d b size fuel small sum low high = ground arith
shift_up-Shifted (suc k) e zero b size fuel small sum low high =
    Shifted-last k e b size (omega arith) low high
shift_up-Shifted (suc k) e (suc d) b size fuel small sum low high =
    let most = pow_at_most b 30 (omega arith) in
    Shifted-more k e d b size small (omega arith) (
      shift_up-Shifted k e d (suc b) (size * 2) (omega arith) (omega arith) (omega arith)
        (omega arith) (omega arith))

-- What NORMALIZE_SIZE gives for a size whose lower 31 bits are `n`.
pub record Normalized (size n : ℕ) : Type 0 where
  pub bit : ℕ
  pub rounded : ℕ
  pub result : normalize_size size ≡ some (rounded, bit)
  pub low : 2 ^ bit ≤ n
  pub high : n < 2 ^ (bit + 1)
  pub covers : n ≤ rounded
  pub power : rounded ≡ (if n == 2 ^ bit then 2 ^ bit else 2 ^ (bit + 1))

-- The step behind the loop, with what the loop gave.
normalize_size-step :
    (size e rest : ℕ)
    → shift_up 32 31 (size % 2 ^ 31) ≡ some (e, rest)
    → normalize_size size ≡ some (if nonzero (rest * 2 % 2 ^ 32) then 2 ^ (e + 1) else 2 ^ e, e)
unfolding normalize_size
normalize_size-step size e rest done = rw (normalize_size, done) refl

Normalized-of :
    (size n e : ℕ)
    → n ≡ size % 2 ^ 31
    → 2 ^ e ≤ n
    → n < 2 * 2 ^ e
    → e ≤ 31
    → Shifted 32 e (31 - e) e n
    → Normalized size n
Normalized-of size n e is_n low high le s =
    let z : e + (31 - e) ≡ 31 = omega arith in
    let done : shift_up 32 31 (size % 2 ^ 31) ≡ some (e, s.rest) =
      subst (λ t. shift_up 32 31 t ≡ some (e, s.rest)) is_n
        (subst (λ t. shift_up 32 t n ≡ some (e, s.rest)) z s.result) in
    let twice = pow_twice e in
    let (to, from) = s.exact in
    let lo = s.low in
    let hi = s.high in
    elim (Bool-cases (n == 2 ^ e)) [
      | inl is_pow ↦
          let last : s.rest ≡ 2 ^ 31 = from (ground arith) in
          let zero_left : s.rest * 2 % 2 ^ 32 ≡ 0 = omega arith in
          record {
            bit = e;
            rounded = 2 ^ e;
            result = normalize_size-step size e s.rest done ∙ rw zero_left refl;
            low = low;
            high = omega arith;
            covers = ground arith;
            power = rw is_pow refl;
          }
      | inr no_pow ↦
          let last : s.rest ≢ 2 ^ 31 = λ h. ground (arith, to h) in
          let some_left : s.rest * 2 % 2 ^ 32 ≢ 0 = omega arith in
          record {
            bit = e;
            rounded = 2 ^ (e + 1);
            result =
                normalize_size-step size e s.rest done
                ∙ rw (==-false (s.rest * 2 % 2 ^ 32) 0 some_left) refl;
            low = low;
            high = omega arith;
            covers = omega arith;
            power = rw no_pow refl;
          }
    ]

-- The loop of NORMALIZE_SIZE ends for every size whose lower 31 bits are not all 0: the highest bit
-- is that of these bits, and the new size is the least power of two that is not below them.
pub normalize_size-least : (size : ℕ) → size % 2 ^ 31 ≢ 0 → Normalized size (size % 2 ^ 31)
normalize_size-least size pos =
    let n = size % 2 ^ 31 in
    let b = highest_bit_lem n 31 pos (omega arith) in
    let lt = b.below in
    Normalized-of size n b.bit refl b.low b.high (omega arith) (
      shift_up-Shifted 32 b.bit (31 - b.bit) b.bit n (omega arith) (omega arith) (omega arith) b.low
        b.high)

shift_up-none : (k highest_bit : ℕ) → shift_up k highest_bit 0 ≡ none
unfolding shift_up
shift_up-none zero highest_bit = refl
shift_up-none (suc k) highest_bit = shift_up-none k (sub32 highest_bit 1)

-- Of the size 0, or of KMEM_MASK alone, the loop of NORMALIZE_SIZE never ends: no fuel is enough.
pub shift_up-zero :
    (k highest_bit size : ℕ) → size % 2 ^ 31 ≡ 0 → shift_up k highest_bit (size % 2 ^ 31) ≡ none
unfolding shift_up
shift_up-zero k highest_bit size zero_bits = rw zero_bits (shift_up-none k highest_bit)
