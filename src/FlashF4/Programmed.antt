-- ===== src/FlashF4/Programmed.antt =====
-- Writing words to erased flash.
use stm32_os.Common.{
  ℕ, zero, suc, ◌+◌, ◌-◌, ◌*◌, ◌/◌, ◌%◌, ◌^◌, ◌≤◌, ◌<◌, ◌≡◌, true, false, ◌==◌, if◌then◌else◌, leb,
  arith, refl, ◌∙◌,
}
use stm32_os.Queue.{Memory}
use stm32_os.Queue.Window.{Apart}
use stm32_os.Flash.Page.{written}
use stm32_os.FlashF4.{
  FlashF4, copy_cr, start_address, stop_address, align_down, busy, copy_words, flash_write,
}

-- The documented behaviour of a store of a word, with PG set and words selected by PSIZE: erased
-- bytes take those of the word.
abbrev pub StoresWords : (ℕ → ℕ → ℕ → Memory → Memory) → Type 0
StoresWords store =
    (cr a source : ℕ) (m : Memory) (x : ℕ)
    → cr % 2 ≡ 1
    → cr / 0x100 % 4 ≡ 2
    → start_address ≤ a
    → a < stop_address
    → a % 4 ≡ 0
    → ((y : ℕ) → a ≤ y → y < a + 4 → m y ≡ 0xFF)
    → store cr a source m x ≡ written a source 4 m x

copy_words-written :
    (r sr : ℕ) (unlock : ℕ → ℕ) (store : ℕ → ℕ → ℕ → Memory → Memory) (count src dest offset : ℕ)
    (s : FlashF4) (x : ℕ)
    → StoresWords store
    → s.cr % 2 ≡ 1
    → s.cr / 0x100 % 4 ≡ 2
    → start_address ≤ dest
    → dest + 4 * (offset + count) ≤ stop_address
    → dest % 4 ≡ 0
    → Apart src (4 * (offset + count)) dest (4 * (offset + count))
    → ((y : ℕ) → dest + 4 * offset ≤ y → y < dest + 4 * (offset + count) → s.memory y ≡ 0xFF)
    → (copy_words r sr unlock store count src dest offset s).memory x
      ≡ written (dest + 4 * offset) (src + 4 * offset) (4 * count) s.memory x
unfolding copy_words
copy_words-written r sr unlock store zero src dest offset s x stores pg psize low high even apart
      erased =
    ground arith
copy_words-written r sr unlock store (suc count) src dest offset s x stores pg psize low high even
      apart erased =
    let m : Memory = s.memory in
    let a : ℕ = dest + 4 * offset in
    let source : ℕ = src + 4 * offset in
    let m' : Memory = store s.cr a source m in
    let law : (y : ℕ) → m' y ≡ written a source 4 m y = λ y.
      stores s.cr a source m y pg psize (omega arith) (omega arith) (omega arith)
        (λ z above below. erased z above (omega arith)) in
    let blank : (y : ℕ)
        → dest + 4 * (offset + 1) ≤ y
        → y < dest + 4 * (offset + 1 + count)
        → m' y ≡ 0xFF =
      λ y above below. law y ∙ ground (arith, erased y) in
    let rest =
      copy_words-written r sr unlock store count src dest (offset + 1) (record s { memory = m' }) x
        stores pg psize low (omega arith) even (ground arith) blank in
    rest
    ∙ ground (
      arith,
      law x,
      law (src + (x - dest)),
      law (src + 4 * (offset + 1) + (x - (dest + 4 * (offset + 1)))),
    )

-- A write of `size` bytes that succeeds.
pub record Programmed (r sr : ℕ) (unlock : ℕ → ℕ) (store : ℕ → ℕ → ℕ → Memory → Memory)
    (src dest size : ℕ) (s : FlashF4) : Type 0 where
  pub after : FlashF4
  pub result : flash_write r sr unlock store src dest size false s ≡ (true, after)
  pub memory : (x : ℕ) → after.memory x ≡ written dest src ((size + 3) / 4 * 4) s.memory x

-- A write to erased flash, of a size and between aligned addresses that lie behind the program and
-- end before the end of the flash, from a source apart, where the flash is not busy and the keys
-- unlock it: it succeeds, the words that hold the bytes are those of the source, and no other byte
-- changes.
pub flash_write-Programmed :
    (r sr : ℕ) (unlock : ℕ → ℕ) (store : ℕ → ℕ → ℕ → Memory → Memory) (src dest size : ℕ)
    (s : FlashF4)
    → StoresWords store
    → busy r sr unlock store ≡ false
    → unlock s.cr / 0x80000000 % 2 ≡ 0
    → src % 4 ≡ 0
    → dest % 4 ≡ 0
    → start_address ≤ dest
    → r < dest
    → dest + size < stop_address
    → Apart src (size + 3) dest (size + 3)
    → ((y : ℕ) → dest ≤ y → y < dest + size + 3 → s.memory y ≡ 0xFF)
    → Programmed r sr unlock store src dest size s
unfolding flash_write
flash_write-Programmed r sr unlock store src dest size s stores free open_lock even_src even low
      used high apart erased =
    let from : align_down src ≡ src = omega arith in
    let to : align_down dest ≡ dest = omega arith in
    let some_rom : leb dest r ≡ false = ground arith in
    let inside : leb stop_address ((dest + size) % 2 ^ 32) ≡ false = ground arith in
    let words : ℕ = (size + 3) / 4 in
    let padded : (if size % 4 == 0 then size else (size + 4) % 2 ^ 32) / 4 ≡ words = ground arith in
    let no_lock : (unlock s.cr / 0x80000000 % 2 == 1) ≡ false = ground arith in
    let set : FlashF4 = record s { cr = copy_cr } in
    record {
      after = record (copy_words r sr unlock store words src dest 0 set) { cr = 0x80000000 };
      result = rw (from, to, some_rom, inside, free, no_lock, padded) refl;
      memory = λ x.
          copy_words-written r sr unlock store words src dest 0 set x stores refl refl low
            (omega arith) even (ground arith)
            (λ y above below. erased y (omega arith) (omega arith))
          ∙ ground arith;
    }
