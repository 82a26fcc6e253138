-- ===== src/Mpu/Tests.antt =====
-- A unit whose next bank has eight regions of 1 KB at the start of the RAM, which other code may
-- read.
use stm32_os.Common.{ℕ, ◌<◌, ◌≡◌, false, true, arith}
use stm32_os.Mpu.{region_number, Permissions, no_region, Region, Mpu, mpu_add, mpu_exchange}
use stm32_os.Mpu.Rasr.{InForce}
use stm32_os.Mpu.Add.{Adds, mpu_add-Adds}
use stm32_os.Mpu.Exchange.{mpu_exchange-InForce}

abbrev kilobyte : Region
kilobyte = record {
  valid = true;
  base_address = 0x20000000;
  end_address = 0x200003FF;
  region_size = 9;
  privileged = Permissions.read_and_write;
  unprivileged = Permissions.read_only;
}

abbrev filled : Mpu
filled = record {
  mpu_enable = false;
  current_regions = λ j. no_region;
  next_regions = λ j. kilobyte;
  bases = λ j. 0;
  ends = λ j. 0;
  ctrl = 0;
  rnr = 0;
  rbar = λ j. 0;
  rasr = λ j. 0;
}

mpu_exchange-InForce_example :
    ((mpu_exchange filled).ctrl ≡ 5)
    × ((j : ℕ)
        → j < region_number
        → InForce kilobyte ((mpu_exchange filled).rbar j) ((mpu_exchange filled).rasr j))
    × ((mpu_exchange filled).current_regions ≡ (λ j. kilobyte))
    × ((j : ℕ) → j < region_number → ((mpu_exchange filled).next_regions j).valid ≡ false)
mpu_exchange-InForce_example =
    mpu_exchange-InForce filled (λ j lt. record { size = omega arith; ordered = omega arith })

mpu_add-Adds_example :
    Adds
      (λ j. no_region)
      0x20000000
      9
      Permissions.read_and_write
      Permissions.read_only
      (mpu_add 0x20000000 9 Permissions.read_and_write Permissions.read_only
        (record filled { next_regions = λ j. no_region }))
mpu_add-Adds_example =
    mpu_add-Adds 0x20000000 9 Permissions.read_and_write Permissions.read_only
      (record filled { next_regions = λ j. no_region }) (omega arith)
      (λ j lt. record { size = omega arith; ordered = omega arith })
