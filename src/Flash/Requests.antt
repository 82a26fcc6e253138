-- ===== src/Flash/Requests.antt =====
-- The requests of the flash driver, and transfers of Driver/driver.c to and from the flash.
use stm32_os.Common.{
  ℕ, ◌+◌, ◌*◌, ◌/◌, ◌%◌, ◌^◌, ◌≤◌, ◌<◌, ◌≡◌, inl, arith, refl, ◌∙◌, ap, true, false,
}
use stm32_os.Queue.Window.{Apart}
use stm32_os.Peripheral.{Peripheral, DriverState}
use stm32_os.Flash.{Flash, Interface, flash_begin, flash_end, even_size, outside, flash_write}
use stm32_os.Flash.Page.{Documented, Ready, written}
use stm32_os.Flash.Write.{write_pages-WrittenPages}

-- A request to write that fits: the bytes lie in the flash, the buffer for a page outside it, and
-- the source apart from both.
pub record Fits (b dest src size : ℕ) : Type 0 where
  pub small : size < 0xFFFFFFFF
  pub low : flash_begin ≤ dest
  pub inside : dest < flash_end
  pub high : dest + even_size size ≤ flash_end
  pub buffer_outside : Apart b 1024 flash_begin 0x8000
  pub source_outside : Apart src (even_size size) flash_begin 0x8000
  pub source_apart : Apart b 1024 src (even_size size)

pub inside-Fits : (b dest src size : ℕ) → Fits b dest src size → outside dest ≡ false
unfolding outside
inside-Fits b dest src size fits = let low = fits.low in let inside = fits.inside in ground arith

-- The case WRITE does not fail, and what it leaves.
pub record Stored (hw : Interface) (p : Peripheral) (s : Flash) : Type 0 where
  pub p_after : Peripheral
  pub s_after : Flash
  pub result : flash_write hw p s ≡ (p_after, s_after)
  pub success : p_after.peripheral_status ≡ DriverState.success
  pub same_id : p_after.peripheral_id ≡ p.peripheral_id
  pub memory :
      (x : ℕ)
      → Apart p.peripheral_memory_buffer 1024 x 1
      → s_after.memory x
        ≡ written p.peripheral_data_reg_ptr p.peripheral_buffer
            (even_size p.peripheral_operate_bytes)
            s.memory
            x

module _ (hw : Interface) (documented : Documented hw) (ready : Ready hw) where
  pub flash_write-Stored :
      (p : Peripheral) (s : Flash)
      → hw.unlock s.lock ≡ false
      → Fits p.peripheral_memory_buffer p.peripheral_data_reg_ptr p.peripheral_buffer
          p.peripheral_operate_bytes
      → Stored hw p s
  unfolding flash_write
  flash_write-Stored p s unlock fits =
      let b : ℕ = p.peripheral_memory_buffer in
      let dest : ℕ = p.peripheral_data_reg_ptr in
      let src : ℕ = p.peripheral_buffer in
      let size : ℕ = even_size p.peripheral_operate_bytes in
      let low = fits.low in
      let high = fits.high in
      let unlocked : Flash = record s { lock = hw.unlock s.lock } in
      let split : dest / 1024 * 1024 + dest % 1024 ≡ dest = omega arith in
      let pages =
        write_pages-WrittenPages hw documented ready 33 b ((dest + size) % 2 ^ 32)
          (dest / 1024 * 1024) (dest % 1024) src size unlocked unlock (omega arith) (omega arith)
          (omega arith) (omega arith) (omega arith) (inl (omega arith)) (fits.buffer_outside)
          (fits.source_apart) (fits.source_outside) in
      record {
        p_after = record p {
          peripheral_operate_bytes = size;
          peripheral_status = DriverState.success;
        };
        s_after = record (pages.after) { pg = false; per = false; strt = false; lock = true };
        result = rw (pages.result) refl;
        success = refl;
        same_id = refl;
        memory =
            λ x out. pages.memory x out ∙ ap (λ (at : ℕ). written at src size s.memory x) split;
      }
