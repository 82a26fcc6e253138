-- ===== src/FlashF4.antt =====
-- Driver/F4/driver_FLASH.c: the flash memory of the F4, which is written by words and erased by
-- sectors.
pub mod Sector
pub mod Programmed
mod Tests
use stm32_os.Common.{
  ℕ, zero, suc, ◌+◌, ◌-◌, ◌*◌, ◌/◌, ◌%◌, ◌^◌, Bool, true, false, ◌||◌, ◌==◌, if◌then◌else◌, leb,
  ltb,
}
use stm32_os.Queue.{Memory}

-- FLASH_BEGIN, and the end of the flash.
abbrev pub start_address : ℕ
start_address = 0x08000000

abbrev pub stop_address : ℕ
stop_address = 0x08080000

-- FLASH_SECTORS_NUMBER
abbrev pub sectors_number : ℕ
sectors_number = 8

-- sectors_start_address[]
abbrev pub sectors_start_address : ℕ → ℕ
sectors_start_address n =
    if n == 0
    then 0x08000000
    else if n == 1
    then 0x08004000
    else if n == 2
    then 0x08008000
    else if n == 3
    then 0x0800C000
    else if n == 4
    then 0x08010000
    else if n == 5
    then 0x08020000
    else if n == 6
    then 0x08040000
    else 0x08060000

pub record FlashF4 : Type 0 where
  pub memory : Memory
  pub cr : ℕ

-- & ~0x03
abbrev pub align_down : ℕ → ℕ
align_down n = n / 4 * 4

-- The word of CR for the copy: PG is bit 0, and PSIZE, for words 2, the bits 8 and 9.
abbrev pub copy_cr : ℕ
copy_cr = 0x201 + 0x2000000

-- `first_unused_rom` comes from the linker; `sr` is what SR reads, `unlock` gives the word in CR
-- after the two keys were written to KEYR, and `store` is what a store of a word does to the
-- memory, given the word in CR, the address, and the address of the source.
module _ (first_unused_rom sr : ℕ) (unlock : ℕ → ℕ)
    (store : (cr address source : ℕ) → Memory → Memory) where
  -- Bit 31 of SR.
  abbrev pub busy : Bool
  busy = sr / 0x80000000 % 2 == 1

  -- Both keys are written.
  abbrev pub write_keys : FlashF4 → FlashF4
  write_keys s = record s { cr = unlock s.cr }

  -- LOCK, bit 31 of CR.
  abbrev pub locked : FlashF4 → Bool
  locked s = s.cr / 0x80000000 % 2 == 1

  -- The loop over the words, from word `offset` on.
  pub copy_words : (count : ℕ) (src dest offset : ℕ) → FlashF4 → FlashF4
  copy_words zero src dest offset s = s
  copy_words (suc count) src dest offset s =
      copy_words count src dest (offset + 1)
        (record s { memory = store s.cr (dest + 4 * offset) (src + 4 * offset) s.memory })

  -- A result of -1 is `false`. With `is_asyn` nothing is copied.
  pub flash_write : (src dest size : ℕ) (is_asyn : Bool) → FlashF4 → Bool × FlashF4
  flash_write src dest size is_asyn s =
      let from = align_down src in
      let to = align_down dest in
      let padded = if size % 4 == 0 then size else (size + 4) % 2 ^ 32 in
      if leb to first_unused_rom || leb stop_address ((to + size) % 2 ^ 32) || busy
      then (false, s)
      else if locked (write_keys s)
      then (false, write_keys s)
      else if is_asyn
      then (true, record s { cr = 0x3000601 })
      else (
        true,
        record (copy_words (padded / 4) from to 0 (record s { cr = copy_cr })) { cr = 0x80000000 },
      )

  -- The number of the first of `count` sectors from `number` on that does not start below the
  -- address, or 8.
  pub find_sector : (count number base_address : ℕ) → ℕ
  find_sector zero number base_address = number
  find_sector (suc count) number base_address =
      let later = find_sector count (number + 1) base_address in
      if ltb (sectors_start_address number) base_address then later else number

  pub flash_erasure : (base_address : ℕ) → FlashF4 → Bool × FlashF4
  flash_erasure base_address s =
      let number = find_sector sectors_number 0 base_address in
      if leb base_address first_unused_rom || leb stop_address base_address || busy
      then (false, s)
      else if locked (write_keys s)
      then (false, write_keys s)
      else (true, record s { cr = number * 8 + 2 + 0x3010000 })
