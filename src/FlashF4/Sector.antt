-- ===== src/FlashF4/Sector.antt =====
-- The sector that is erased.
use stm32_os.Common.{
  ℕ, ◌+◌, ◌-◌, ◌*◌, ◌/◌, ◌%◌, ◌≤◌, ◌<◌, ◌≡◌, true, false, ◌==◌, if◌then◌else◌, leb, ltb, arith,
  refl,
}
use stm32_os.Queue.{Memory}
use stm32_os.FlashF4.{
  FlashF4, start_address, stop_address, sectors_start_address, busy, find_sector, flash_erasure,
}

-- The sector in which an address of the flash lies.
abbrev pub sector_of : ℕ → ℕ
sector_of a =
    let kilobytes = (a - start_address) / 1024 in
    if ltb kilobytes 64
    then kilobytes / 16
    else if ltb kilobytes 128
    then 4
    else 4 + kilobytes / 128

-- The sector that the search finds for an address.
abbrev pub sector_found : ℕ → ℕ
sector_found a = if sectors_start_address (sector_of a) == a then sector_of a else sector_of a + 1

find_sector-found :
    (r sr : ℕ) (unlock : ℕ → ℕ) (store : ℕ → ℕ → ℕ → Memory → Memory) (a : ℕ)
    → start_address ≤ a
    → a < stop_address
    → find_sector r sr unlock store 8 0 a ≡ sector_found a
unfolding find_sector
find_sector-found r sr unlock store a low high = ground arith

-- For an address of the flash where erasing is allowed: the sector that is erased is the one of the
-- address where that is the start of a sector, and else the next one, for the last sector the
-- number 8, which no sector has.
pub flash_erasure-found :
    (r sr : ℕ) (unlock : ℕ → ℕ) (store : ℕ → ℕ → ℕ → Memory → Memory) (a : ℕ) (s : FlashF4)
    → start_address ≤ a
    → a < stop_address
    → r < a
    → busy r sr unlock store ≡ false
    → unlock s.cr / 0x80000000 % 2 ≡ 0
    → flash_erasure r sr unlock store a s
      ≡ (true, record s { cr = sector_found a * 8 + 2 + 0x3010000 })
unfolding flash_erasure
flash_erasure-found r sr unlock store a s low high used free open_lock =
    let found = find_sector-found r sr unlock store a low high in
    let some_rom : leb a r ≡ false = ground arith in
    let inside : leb stop_address a ≡ false = ground arith in
    let no_lock : (unlock s.cr / 0x80000000 % 2 == 1) ≡ false = ground arith in
    rw (found, some_rom, inside, free, no_lock) refl
