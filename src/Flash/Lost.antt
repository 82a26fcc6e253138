-- ===== src/Flash/Lost.antt =====
-- Transfers to the flash that report SUCCESS and do not write: LOCK stays set, or the flash is
-- still busy when FLASH_WAIT looks.
use stm32_os.Common.{
  ℕ, suc, ◌+◌, ◌-◌, ◌*◌, ◌/◌, ◌%◌, ◌^◌, ◌≤◌, ◌<◌, ◌≡◌, ◌&&◌, arith, ltb, refl, ◌∙◌, ap, ==-true,
  Bool, true, false,
}
use stm32_os.Queue.{memcpy}
use stm32_os.Queue.Window.{Apart}
use stm32_os.Device.{Request}
use stm32_os.Peripheral.{Peripheral, DriverState, device_flash_id, ask, driver_write, returned}
use stm32_os.Peripheral.Outcome.{driver_write-success, driver_write-io_error}
use stm32_os.Flash.{
  Flash, Interface, flash_begin, flash_end, busy_at, write_page, fill, write_pages, even_size,
  outside, flash_write, flash_driver, flash_wait, flash_erasure,
}
use stm32_os.Flash.Page.{Documented, Ready}
use stm32_os.Flash.Requests.{Fits, inside-Fits}
use stm32_os.Flash.Transfers.{driver-write_step}
use stm32_os.Flash.Failure.{write_pages-Locked}

-- The transfer reports SUCCESS, and no byte outside the buffer of the driver has changed.
pub record Unwritten (hw : Interface) (p : Peripheral) (s : Flash) (src dest size : ℕ)
    : Type 0 where
  pub p_after : Peripheral
  pub s_after : Flash
  pub result :
      driver_write Flash (flash_driver hw) src dest size (p, s)
      ≡ (DriverState.success, p_after, s_after)
  pub memory : (x : ℕ) → Apart p.peripheral_memory_buffer 1024 x 1 → s_after.memory x ≡ s.memory x

-- A flash that stays locked is not written, and the transfer reports SUCCESS.
pub driver_write-Unwritten :
    (hw : Interface) (p : Peripheral) (s : Flash) (src dest size : ℕ)
    → Documented hw
    → Ready hw
    → p.peripheral_id ≡ device_flash_id
    → hw.unlock s.lock ≡ true
    → outside dest ≡ false
    → Apart p.peripheral_memory_buffer 1024 src (even_size size)
    → Unwritten hw p s src dest size
unfolding ask flash_write
driver_write-Unwritten hw p s src dest size documented ready id locked inside apart =
    let asked : Peripheral = ask Request.write src dest size p in
    let b : ℕ = p.peripheral_memory_buffer in
    let at : asked.peripheral_data_reg_ptr ≡ dest =
      rw (==-true p.peripheral_id device_flash_id id) refl in
    let d : ℕ = asked.peripheral_data_reg_ptr in
    let pages =
      write_pages-Locked hw 33 b ((d + even_size size) % 2 ^ 32) (d / 1024 * 1024) (d % 1024) src
        (even_size size) (record s { lock = hw.unlock s.lock }) documented ready locked
        (omega arith) apart in
    let p1 : Peripheral = record asked {
      peripheral_operate_bytes = even_size size;
      peripheral_status = DriverState.success;
    } in
    let s1 : Flash = record (pages.after) { pg = false; per = false; strt = false; lock = true } in
    let step : flash_driver hw (asked, s) ≡ (p1, s1) =
      driver-write_step hw asked s id (ap outside at ∙ inside) refl ∙ rw (pages.result) refl in
    record {
      p_after = p1;
      s_after = s1;
      result = driver_write-success Flash (flash_driver hw) src dest size p p1 s s1 step refl;
      memory = pages.memory;
    }

flash_wait-busy :
    (retries : ℕ) (hw : Interface) (s : Flash)
    → busy_at hw s.reads ≡ true
    → busy_at hw (s.reads + 1) ≡ true
    → flash_wait hw (suc retries) s ≡ (false, record s { reads = s.reads + 2 })
unfolding flash_wait
flash_wait-busy retries hw s first second = rw (first, second) refl

-- The transfer reports SUCCESS, and the page of the first byte is erased.
pub record Blanked (hw : Interface) (p : Peripheral) (s : Flash) (src dest size : ℕ) : Type 0 where
  pub p_after : Peripheral
  pub s_after : Flash
  pub result :
      driver_write Flash (flash_driver hw) src dest size (p, s)
      ≡ (DriverState.success, p_after, s_after)
  pub memory : (x : ℕ) → x / 1024 ≡ dest / 1024 → s_after.memory x ≡ 0xFF

-- The first page, where the flash is busy: it is erased, and the loop is left.
record Aborted (hw : Interface) (count b address_end address offset src size : ℕ) (s : Flash)
    : Type 0 where
  pub after : Flash
  pub result : write_pages hw (suc count) b address_end address offset src size s ≡ (false, after)
  pub memory : (x : ℕ) → x / 1024 ≡ address / 1024 → after.memory x ≡ 0xFF

write_pages-Aborted :
    (hw : Interface) (count b address_end address offset src size : ℕ) (s : Flash)
    → Documented hw
    → busy_at hw s.reads ≡ true
    → busy_at hw (s.reads + 1) ≡ true
    → s.lock ≡ false
    → flash_begin ≤ address
    → address < flash_end
    → address < address_end
    → Aborted hw count b address_end address offset src size s
unfolding write_pages write_page flash_erasure
write_pages-Aborted hw count b address_end address offset src size s documented first second unlock
      low high before =
    let e : (ltb address flash_end && ltb address address_end) ≡ true = ground arith in
    let copied = fill (1024 - offset) b offset src size (memcpy b address 1024 s.memory) in
    let started : Flash = record s {
      per = true;
      ar = address;
      strt = true;
      memory = hw.erase s.lock true address copied.filled;
    } in
    let waited = flash_wait-busy 0xFFF hw started first second in
    record {
      after = record started { reads = s.reads + 2 };
      result = rw (e, waited) refl;
      memory = λ x same.
          ap (λ (l : Bool). hw.erase l true address copied.filled x) unlock
          ∙ documented.erased address (copied.filled) x low high
          ∙ rw (==-true (x / 1024) (address / 1024) same) refl;
    }

driver-uninit_step :
    (hw : Interface) (p : Peripheral) (s : Flash)
    → p.peripheral_id ≡ device_flash_id
    → outside p.peripheral_data_reg_ptr ≡ false
    → p.peripheral_request ≡ Request.uninit
    → flash_driver hw (p, s) ≡ (record p { peripheral_status = DriverState.success }, s)
unfolding flash_driver
driver-uninit_step hw p s id inside request =
    simp (==-true p.peripheral_id device_flash_id id, inside, request)

-- On a flash that behaves as documented and is unlocked: where it is busy at the first two reads
-- of SR after the erasure was started, `driver_write` of at least one byte, in a request that fits,
-- is broken off with the page of the first byte erased, and returns SUCCESS.
pub driver_write-Blanked :
    (hw : Interface) (p : Peripheral) (s : Flash) (src dest size : ℕ)
    → Documented hw
    → p.peripheral_id ≡ device_flash_id
    → hw.unlock s.lock ≡ false
    → busy_at hw s.reads ≡ true
    → busy_at hw (s.reads + 1) ≡ true
    → 0 < size
    → Fits p.peripheral_memory_buffer dest src size
    → Blanked hw p s src dest size
unfolding ask flash_write even_size
driver_write-Blanked hw p s src dest size documented id unlock first second some_bytes fits =
    let asked : Peripheral = ask Request.write src dest size p in
    let b : ℕ = p.peripheral_memory_buffer in
    let at : asked.peripheral_data_reg_ptr ≡ dest =
      rw (==-true p.peripheral_id device_flash_id id) refl in
    let d : ℕ = asked.peripheral_data_reg_ptr in
    let low = fits.low in
    let inside = fits.inside in
    let high = fits.high in
    let small = fits.small in
    let pages =
      write_pages-Aborted hw 32 b ((d + even_size size) % 2 ^ 32) (d / 1024 * 1024) (d % 1024) src
        (even_size size) (record s { lock = hw.unlock s.lock }) documented first second unlock
        (omega arith) (omega arith) (ground arith) in
    let p1 : Peripheral = record asked {
      peripheral_operate_bytes = even_size size;
      peripheral_status = DriverState.io_error;
    } in
    let shut : Peripheral = record p1 { peripheral_request = Request.uninit } in
    let in_flash : outside d ≡ false = ap outside at ∙ inside-Fits b dest src size fits in
    let step : flash_driver hw (asked, s) ≡ (p1, pages.after) =
      driver-write_step hw asked s id in_flash refl ∙ rw (pages.result) refl in
    record {
      p_after = record shut { peripheral_status = DriverState.success };
      s_after = pages.after;
      result =
          driver_write-io_error Flash (flash_driver hw) src dest size p p1 s (pages.after) step refl
          ∙ ap (returned Flash (flash_driver hw))
              (driver-uninit_step hw shut (pages.after) id in_flash refl);
      memory = λ x same. pages.memory x (omega arith);
    }
