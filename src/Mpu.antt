-- ===== src/Mpu.antt =====
-- Driver/F4/driver_MPU.c: the memory protection unit. One of two banks of regions is in force, the
-- other is filled by `mpu_add` and `mpu_delete` until `mpu_exchange` puts it in force.
pub mod Rasr
pub mod Exchange
pub mod Overlap
pub mod Add
mod Tests
use stm32_os.Common.{
  ℕ, zero, suc, ◌+◌, ◌-◌, ◌*◌, ◌/◌, ◌%◌, ◌^◌, Bool, true, false, ◌&&◌, ◌||◌, not, ◌==◌, leb, ltb,
  if◌then◌else◌, update,
}
use stm32_os.Port.{add32, sub32}

-- MPU_REGION_NUMBER
abbrev pub region_number : ℕ
region_number = 8

-- `PERISSIONS`
pub data Permissions : Type 0 where
  no_access read_only read_and_write : Permissions

abbrev pub rank : Permissions → ℕ
rank Permissions.no_access = 0
rank Permissions.read_only = 1
rank Permissions.read_and_write = 2

-- What the functions return of `EXE_STATE`.
pub data MpuState : Type 0 where
  exe_success exe_para_error exe_unknow_error : MpuState

-- DRIVER_MPU_REGION
pub record Region : Type 0 where
  pub valid : Bool  -- region_valid
  pub base_address : ℕ
  pub end_address : ℕ
  pub region_size : ℕ  -- the number of the enumerator of MPU_REGION_SIZE
  pub privileged : Permissions
  pub unprivileged : Permissions

abbrev pub Regions : Type 0
Regions = ℕ → Region

-- DRIVER_MPU with what its two pointers point to, the arrays of `mpu_add`, and the registers: RBAR
-- and RASR are those of the region that RNR selects.
pub record Mpu : Type 0 where
  pub mpu_enable : Bool
  pub current_regions : Regions
  pub next_regions : Regions
  pub bases : ℕ → ℕ  -- regions_base_address
  pub ends : ℕ → ℕ  -- regions_end_address
  pub ctrl : ℕ
  pub rnr : ℕ
  pub rbar : ℕ → ℕ
  pub rasr : ℕ → ℕ

-- memset(..., 0, ...)
abbrev pub no_region : Region
no_region = record {
  valid = false;
  base_address = 0;
  end_address = 0;
  region_size = 0;
  privileged = Permissions.no_access;
  unprivileged = Permissions.no_access;
}

abbrev pub cleared : (ℕ → ℕ) → ℕ → ℕ
cleared f i = if ltb i region_number then 0 else f i

-- `region_base_address + (1 << (region_size + 1)) - 1`
abbrev pub last_address : (base size : ℕ) → ℕ
last_address base size = sub32 (add32 base (2 ^ (size + 1) % 2 ^ 32)) 1

-- The inner loop of the test in `mpu_add`, from `test_number` on.
pub hits : (count test_number check : ℕ) → Regions → Bool
hits zero test_number check r = false
hits (suc count) test_number check r =
    not (check == test_number)
      && leb (r test_number).base_address (r check).base_address
      && leb (r check).base_address (r test_number).end_address
    || hits count (test_number + 1) check r

-- The two loops: `number` is the last region that they look at. They look at the regions as they
-- are before the new one is entered.
pub overlapping : (count check number : ℕ) → Regions → Bool
overlapping zero check number r = false
overlapping (suc count) check number r =
    hits (number + 1) 0 check r || overlapping count (check + 1) number r

pub make_region : (base size : ℕ) (privileged unprivileged : Permissions) → Region
make_region base size privileged unprivileged = record {
  valid = true;
  base_address = base;
  end_address = last_address base size;
  region_size = size;
  privileged = privileged;
  unprivileged = unprivileged;
}

abbrev pub set_region : ℕ → Region → Mpu → Mpu
set_region number region m = record m { next_regions = update m.next_regions number region }

abbrev pub note : ℕ → (base end : ℕ) → Mpu → Mpu
note number base end m = record m {
  bases = update m.bases number base;
  ends = update m.ends number end;
}

-- The outer loop of `mpu_add`, at region `number`.
pub add_from : (count number : ℕ) → Region → Mpu → MpuState × Mpu
add_from zero number region m = (MpuState.exe_unknow_error, m)
add_from (suc count) number region m =
    let old = m.next_regions number in
    let m1 = note number region.base_address region.end_address m in
    let on = add_from count (number + 1) region (note number old.base_address old.end_address m) in
    if not old.valid
    then (if overlapping (number + 1) 0 number m.next_regions
        then (MpuState.exe_para_error, m1)
        else (MpuState.exe_success, set_region number region m1))
    else on

pub mpu_add : (base size : ℕ) (privileged unprivileged : Permissions) → Mpu → MpuState × Mpu
mpu_add base size privileged unprivileged m =
    let m1 = record m { bases = cleared m.bases; ends = cleared m.ends } in
    if ltb (rank privileged) (rank unprivileged)
    then (MpuState.exe_para_error, m1)
    else add_from region_number 0 (make_region base size privileged unprivileged) m1

-- The loop of `mpu_delete`, at region `number`.
pub delete_from : (count number : ℕ) (found : Bool) (base : ℕ) → Regions → Bool × Regions
delete_from zero number found base r = (found, r)
delete_from (suc count) number found base r =
    let found' = ((r number).base_address == base) || found in
    let moved : Region =
      if number == region_number - 1 then record (r number) { valid = false } else r (number + 1) in
    let r' = if found' then update r number moved else r in
    let on = delete_from count (number + 1) found' base r' in
    if (r number).valid then on else (found, r)

pub mpu_delete : ℕ → Mpu → MpuState × Mpu
mpu_delete base m =
    let (found, r) = delete_from region_number 0 false base m.next_regions in
    (
      if found then MpuState.exe_success else MpuState.exe_unknow_error,
      record m { next_regions = r },
    )

-- `|` on `count` bits.
pub bit_or : (count a b : ℕ) → ℕ
bit_or zero a b = 0
bit_or (suc count) a b =
    (if (a % 2 == 0) && (b % 2 == 0) then 0 else 1) + 2 * bit_or count (a / 2) (b / 2)

-- The switch statements of `mpu_exchange`: the bits for the permissions.
pub access : (privileged unprivileged : Permissions) → ℕ
access Permissions.read_and_write Permissions.read_and_write = 3
access Permissions.read_and_write Permissions.read_only = 2
access Permissions.read_and_write Permissions.no_access = 1
access Permissions.read_only Permissions.read_only = 6
access Permissions.read_only _ = 5
access Permissions.no_access _ = 0

-- `MPU->RASR |= ...`, for the selected region.
abbrev pub set_bits : ℕ → Mpu → Mpu
set_bits bits m = record m { rasr = update m.rasr m.rnr (bit_or 32 (m.rasr m.rnr) bits) }

-- The loop body of `mpu_exchange`.
pub load_region : ℕ → Region → Mpu → Mpu
load_region number r m =
    let m1 = record m { rnr = number; rasr = update m.rasr number 0 } in
    let m2 = record m1 {
      rbar = update m1.rbar number (r.base_address - r.base_address % 0x20);
      rasr = update m1.rasr number (add32 (0x10000000 + 0xF0000) (r.region_size * 2));
    } in
    if not r.valid
    then m1
    else if leb (rank r.unprivileged) (rank r.privileged)
    then set_bits 1 (set_bits (access r.privileged r.unprivileged * 2 ^ 24) m2)
    else m2

-- The loop, for `count` regions from `number` on.
pub load_from : (count number : ℕ) → Regions → Mpu → Mpu
load_from zero number r m = m
load_from (suc count) number r m = load_from count (number + 1) r (load_region number (r number) m)

pub invalidate : Regions → Regions
invalidate r number =
    if ltb number region_number then record (r number) { valid = false } else r number

pub mpu_exchange : Mpu → Mpu
mpu_exchange m =
    let m1 = load_from region_number 0 m.next_regions (record m { ctrl = 0 }) in
    record m1 {
      ctrl = 5;
      mpu_enable = true;
      next_regions = invalidate m1.current_regions;
      current_regions = m1.next_regions;
    }

-- The bit of SHCSR, which `mpu_init` sets as well, belongs to another unit.
pub mpu_init : Mpu → Mpu
mpu_init m = record m {
  mpu_enable = false;
  current_regions = λ number. no_region;
  next_regions = λ number. no_region;
}
