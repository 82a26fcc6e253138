-- ===== src/Flash/Write.antt =====
-- All the pages of a request, and the requests of the flash driver.
use stm32_os.Common.{
  ℕ, zero, suc, ◌+◌, ◌-◌, ◌*◌, ◌%◌, ◌≤◌, ◌<◌, ◌≡◌, ◌⊎◌, inl, inr, ◌&&◌, arith, leb, ltb, refl, ◌∙◌,
  Bool-cases, true, false, ap₂,
}
use stm32_os.Queue.{Memory}
use stm32_os.Queue.Window.{Apart}
use stm32_os.Flash.{Flash, Interface, flash_begin, flash_end, write_pages}
use stm32_os.Flash.Copy.{copied_bytes}
use stm32_os.Flash.Page.{Documented, Ready, written, write_page-WrittenPage}

-- The loop over the pages ends without an error, and what it leaves.
pub record WrittenPages (hw : Interface) (count b address_end address offset src size : ℕ)
    (s : Flash) : Type 0 where
  pub after : Flash
  pub result : write_pages hw count b address_end address offset src size s ≡ (true, after)
  pub memory :
      (x : ℕ) → Apart b 1024 x 1 → after.memory x ≡ written (address + offset) src size s.memory x

-- What is left to write ends at `address_end`, or all is written.
abbrev pub Left : (address_end address offset size : ℕ) → Type 0
Left address_end address offset size =
    (address + offset + size ≡ address_end) ⊎ ((size ≡ 0) × (address_end ≤ address))

module _ (hw : Interface) (documented : Documented hw) (ready : Ready hw) where
  Left-address :
      (address_end address offset size rest : ℕ)
      → offset ≤ 1024
      → address < address_end
      → rest ≡ size - copied_bytes (1024 - offset) size
      → Left address_end address offset size
      → Left address_end (address + 1024) 0 rest
  Left-address address_end address offset size rest small before e left =
      elim (Bool-cases (ltb (1024 - offset) size)) [
        | inl f ↦ inl (ground arith)
        | inr f ↦ inr (ground arith, ground arith)
      ]

  -- What the page and the pages after it leave, seen together.
  next_memory :
      (b address_end address offset src size x : ℕ) (m m' : Memory)
      → offset ≤ 1024
      → flash_begin ≤ address
      → address + 1024 ≤ flash_end
      → address_end ≤ flash_end
      → Left address_end address offset size
      → address < address_end
      → Apart b 1024 src size
      → Apart src size flash_begin 0x8000
      → Apart b 1024 x 1
      → (let k = copied_bytes (1024 - offset) size in
          ((y : ℕ) → Apart b 1024 y 1 → m' y ≡ written (address + offset) src k m y)
          → written (address + 1024 + 0) (src + k) (size - k) m' x
            ≡ written (address + offset) src size m x)
  next_memory b address_end address offset src size x m m' small low fits high left before
        from_buffer from_flash out law =
      let k : ℕ = copied_bytes (1024 - offset) size in
      elim (Bool-cases (leb (address + 1024) x && ltb x (address + 1024 + (size - k)))) [
        | inl e ↦
            let y : ℕ = src + k + (x - (address + 1024)) in
            let there : m' y ≡ m y = law y (ground arith) ∙ ground arith in ground (arith, there)
        | inr e ↦ let there = law x out in ground (arith, there)
      ]

  pub write_pages-WrittenPages :
      (count b address_end address offset src size : ℕ) (s : Flash)
      → s.lock ≡ false
      → offset ≤ 1024
      → flash_begin ≤ address
      → address % 1024 ≡ 0
      → flash_end ≤ address + count * 1024
      → address_end ≤ flash_end
      → Left address_end address offset size
      → Apart b 1024 flash_begin 0x8000
      → Apart b 1024 src size
      → Apart src size flash_begin 0x8000
      → WrittenPages hw count b address_end address offset src size s
  unfolding write_pages
  write_pages-WrittenPages zero b address_end address offset src size s unlock small low aligned
        fuel high left away from_buffer from_flash =
      record { after = s; result = refl; memory = λ x out. ground arith }
  write_pages-WrittenPages (suc count) b address_end address offset src size s unlock small low
        aligned fuel high left away from_buffer from_flash =
      elim (Bool-cases (ltb address flash_end && ltb address address_end)) [
        | inl e ↦
            let fits : address + 1024 ≤ flash_end = ground arith in
            let page =
              write_page-WrittenPage hw documented b address offset src size s ready unlock small
                low fits aligned away from_buffer in
            let rest =
              write_pages-WrittenPages count b address_end (address + 1024) 0 (page.copied.src)
                (page.copied.size) (page.after) (page.unlocked) (omega arith) (omega arith)
                (omega arith) (omega arith) high
                (Left-address address_end address offset size (page.copied.size) small
                  (ground arith) (page.size_after) left)
                away (ground (arith, page.src_after, page.size_after))
                (ground (arith, page.src_after, page.size_after)) in
            record {
              after = rest.after;
              result = rw (e, page.result, rest.result) refl;
              memory = λ x out.
                  rest.memory x out
                  ∙ ap₂ (λ a n. written (address + 1024 + 0) a n page.after.memory x)
                      (page.src_after) (page.size_after)
                  ∙ next_memory b address_end address offset src size x s.memory page.after.memory
                      small low fits high left (ground arith) from_buffer from_flash out
                      page.memory;
            }
        | inr e ↦ record { after = s; result = rw e refl; memory = λ x out. ground arith }
      ]
