-- ===== src/FlashF4/Tests.antt =====
-- Witnesses of the flash of the F4: six bytes into an erased area, and the erasure of an address
-- inside the second sector.
use stm32_os.Common.{
  ℕ, ◌+◌, ◌*◌, ◌/◌, ◌%◌, ◌==◌, ◌&&◌, ==-true, ◌≡◌, true, arith, refl, inr, ltb, if◌then◌else◌,
}
use stm32_os.Queue.{Memory}
use stm32_os.Flash.Page.{written}
use stm32_os.FlashF4.{FlashF4, flash_erasure}
use stm32_os.FlashF4.Sector.{flash_erasure-found}
use stm32_os.FlashF4.Programmed.{StoresWords, Programmed, flash_write-Programmed}

abbrev word_store : ℕ → ℕ → ℕ → Memory → Memory
word_store cr a source m =
    if (cr % 2 == 1) && (cr / 0x100 % 4 == 2) then written a source 4 m else m

word_store-StoresWords : StoresWords word_store
word_store-StoresWords cr a source m x pg psize low high even erased =
    rw (==-true (cr % 2) 1 pg, ==-true (cr / 0x100 % 4) 2 psize) refl

-- The keys clear LOCK.
abbrev keys : ℕ → ℕ
keys cr = cr % 0x80000000

abbrev blank_flash : FlashF4
blank_flash = record { memory = λ a. if ltb a 0x10000000 then 0xFF else a % 256; cr = 0x80000000 }

flash_write-Programmed_example :
    Programmed 0x08003000 0 keys word_store 0x20000000 0x08010000 6 blank_flash
flash_write-Programmed_example =
    flash_write-Programmed 0x08003000 0 keys word_store 0x20000000 0x08010000 6 blank_flash
      word_store-StoresWords refl refl refl refl (omega arith) (omega arith) (omega arith)
      (inr (omega arith)) (λ y above below. ground arith)

flash_erasure-found_example :
    flash_erasure 0x08003000 0 keys word_store 0x08004100 blank_flash
    ≡ (true, record blank_flash { cr = 2 * 8 + 2 + 0x3010000 })
flash_erasure-found_example =
    flash_erasure-found 0x08003000 0 keys word_store 0x08004100 blank_flash (omega arith)
      (omega arith) (omega arith) refl refl
