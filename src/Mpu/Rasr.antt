-- ===== src/Mpu/Rasr.antt =====
-- The register RASR of a region: what mpu_exchange writes, and what it grants.
use stm32_os.Common.{
  ℕ, zero, suc, ◌+◌, ◌-◌, ◌*◌, ◌/◌, ◌%◌, ◌^◌, ◌≤◌, ◌<◌, ◌≡◌, refl, subst, arith, ◌==◌, ==_iff, Bool,
  Bool-cases, inl, inr, if◌then◌else◌, true, false, ◌&&◌, ◌||◌,
}
use stm32_os.Port.{add32}
use stm32_os.Mpu.{Permissions, rank, Region, bit_or, access}

-- What the three access bits of RASR grant, by the architecture: to privileged code, and to other
-- code.
abbrev pub granted : ℕ → ℕ × ℕ
granted bits =
    if bits == 1
    then (2, 0)
    else if bits == 2
    then (2, 1)
    else if bits == 3
    then (2, 2)
    else if bits == 5
    then (1, 0)
    else if (bits == 6) || (bits == 7)
    then (1, 1)
    else (0, 0)

-- Of a value of RASR: whether the region is on, its size, and its access bits.
abbrev pub is_on : ℕ → Bool
is_on v = v % 2 == 1

abbrev pub size_bits : ℕ → ℕ
size_bits v = v / 2 % 2 ^ 5

abbrev pub access_bits : ℕ → ℕ
access_bits v = v / 2 ^ 24 % 2 ^ 3

-- The value of RASR that a region that is valid gets.
unfoldable pub rasr_value : (size : ℕ) (privileged unprivileged : Permissions) → ℕ
rasr_value size privileged unprivileged =
    bit_or 32
      (bit_or 32 (add32 (0x10000000 + 0xF0000) (size * 2))
        (access privileged unprivileged * 2 ^ 24))
      1

-- A test of the value, for one size and for all.
says : (size : ℕ) (privileged unprivileged : Permissions) → Bool
says size privileged unprivileged =
    let v = rasr_value size privileged unprivileged in
    is_on v
    && (size_bits v == size)
    && ((granted (access_bits v)).0 == rank privileged)
    && ((granted (access_bits v)).1 == rank unprivileged)

abbrev all_below : ℕ → (ℕ → Bool) → Bool
all_below zero f = true
all_below (suc n) f = f n && all_below n f

and_left : (a b : Bool) → (a && b) ≡ true → a ≡ true
and_left true b e = refl
and_left false b e = e

and_right : (a b : Bool) → (a && b) ≡ true → b ≡ true
and_right true b e = e
and_right false b e = ground arith

all_below-at : (n : ℕ) (f : ℕ → Bool) (i : ℕ) → all_below n f ≡ true → i < n → f i ≡ true
all_below-at zero f i all lt = ground arith
all_below-at (suc n) f i all lt = elim (Bool-cases (i == n)) [
  | inl e ↦
      let at : n ≡ i = ground arith in
      subst (λ j. f j ≡ true) at (and_left (f n) (all_below n f) all)
  | inr e ↦ all_below-at n f i (and_right (f n) (all_below n f) all) (ground arith)
]

says-true :
    (size : ℕ) (privileged unprivileged : Permissions)
    → size < 32
    → rank unprivileged ≤ rank privileged
    → says size privileged unprivileged ≡ true
unfolding says rasr_value bit_or access
says-true size Permissions.no_access Permissions.no_access lt le =
    all_below-at 32 (λ n. says n Permissions.no_access Permissions.no_access) size refl lt
says-true size Permissions.read_only Permissions.no_access lt le =
    all_below-at 32 (λ n. says n Permissions.read_only Permissions.no_access) size refl lt
says-true size Permissions.read_only Permissions.read_only lt le =
    all_below-at 32 (λ n. says n Permissions.read_only Permissions.read_only) size refl lt
says-true size Permissions.read_and_write Permissions.no_access lt le =
    all_below-at 32 (λ n. says n Permissions.read_and_write Permissions.no_access) size refl lt
says-true size Permissions.read_and_write Permissions.read_only lt le =
    all_below-at 32 (λ n. says n Permissions.read_and_write Permissions.read_only) size refl lt
says-true size Permissions.read_and_write Permissions.read_and_write lt le =
    all_below-at 32 (λ n. says n Permissions.read_and_write Permissions.read_and_write) size refl lt
says-true size Permissions.no_access Permissions.read_only lt le = ground arith
says-true size Permissions.no_access Permissions.read_and_write lt le = ground arith
says-true size Permissions.read_only Permissions.read_and_write lt le = ground arith

-- What the registers of a region say after it was loaded: it is on with its size, its address and
-- what it grants, or it is off.
pub record Grants (r : Region) (rbar rasr : ℕ) : Type 0 where
  pub on : is_on rasr ≡ true
  pub size : size_bits rasr ≡ r.region_size
  pub privileged : (granted (access_bits rasr)).0 ≡ rank r.privileged
  pub unprivileged : (granted (access_bits rasr)).1 ≡ rank r.unprivileged
  pub address : rbar ≡ r.base_address - r.base_address % 0x20

abbrev pub InForce : Region → (rbar rasr : ℕ) → Type 0
InForce r rbar rasr = if r.valid then Grants r rbar rasr else rasr ≡ 0

-- A region that mpu_add makes: its size is one of the enumerators, and no other code may do more
-- than privileged code.
pub record IsSound (r : Region) : Type 0 where
  pub size : r.region_size < 32
  pub ordered : rank r.unprivileged ≤ rank r.privileged

pub Grants-value :
    (r : Region) (rbar : ℕ)
    → IsSound r
    → rbar ≡ r.base_address - r.base_address % 0x20
    → Grants r rbar (rasr_value r.region_size r.privileged r.unprivileged)
unfolding says
Grants-value r rbar sound at =
    let v = rasr_value r.region_size r.privileged r.unprivileged in
    let t = says-true r.region_size r.privileged r.unprivileged sound.size sound.ordered in
    let a = is_on v in
    let b = size_bits v == r.region_size in
    let c = (granted (access_bits v)).0 == rank r.privileged in
    let d = (granted (access_bits v)).1 == rank r.unprivileged in
    let abc = and_left (a && b && c) d t in
    let ab = and_left (a && b) c abc in
    record {
      on = and_left a b ab;
      size = (==_iff (size_bits v) r.region_size).0 (and_right a b ab);
      privileged =
          (==_iff (granted (access_bits v)).0 (rank r.privileged)).0 (and_right (a && b) c abc);
      unprivileged =
          (==_iff (granted (access_bits v)).1 (rank r.unprivileged)).0
            (and_right (a && b && c) d t);
      address = at;
    }
