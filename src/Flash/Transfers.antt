-- ===== src/Flash/Transfers.antt =====
-- Transfers of Driver/driver.c to and from the flash.
use stm32_os.Common.{ℕ, ◌+◌, ◌≡◌, arith, refl, sym, ◌∙◌, ap, ==-true, false, subst}
use stm32_os.Queue.{memcpy}
use stm32_os.Queue.Window.{Apart, bytes, bytes-memcpy_self}
use stm32_os.Queue.Shape.{bytes_ext}
use stm32_os.Device.{Request}
use stm32_os.Peripheral.{Peripheral, DriverState, device_flash_id, ask, driver_read, driver_write}
use stm32_os.Peripheral.Outcome.{driver_write-success, driver_read-success}
use stm32_os.Flash.{Flash, Interface, even_size, outside, flash_write, flash_driver}
use stm32_os.Flash.Page.{Documented, Ready, written}
use stm32_os.Flash.Requests.{Fits, inside-Fits, flash_write-Stored}

-- The driver takes a request to write, or to read, at an address in the flash.
pub driver-write_step :
    (hw : Interface) (p : Peripheral) (s : Flash)
    → p.peripheral_id ≡ device_flash_id
    → outside p.peripheral_data_reg_ptr ≡ false
    → p.peripheral_request ≡ Request.write
    → flash_driver hw (p, s) ≡ flash_write hw p s
unfolding flash_driver
driver-write_step hw p s id inside request =
    simp (==-true p.peripheral_id device_flash_id id, inside, request)

driver-read_step :
    (hw : Interface) (p : Peripheral) (s : Flash)
    → p.peripheral_id ≡ device_flash_id
    → outside p.peripheral_data_reg_ptr ≡ false
    → p.peripheral_request ≡ Request.read
    → flash_driver hw (p, s) ≡ (
      record p { peripheral_status = DriverState.success },
      record s {
        memory =
            memcpy p.peripheral_buffer p.peripheral_data_reg_ptr p.peripheral_operate_bytes
              s.memory;
      },
    )
unfolding flash_driver
driver-read_step hw p s id inside request =
    simp (==-true p.peripheral_id device_flash_id id, inside, request)

-- A transfer to the flash ends with SUCCESS, and what it leaves in the memory.
pub record Wrote (hw : Interface) (p : Peripheral) (s : Flash) (src dest size : ℕ) : Type 0 where
  pub p_after : Peripheral
  pub s_after : Flash
  pub result :
      driver_write Flash (flash_driver hw) src dest size (p, s)
      ≡ (DriverState.success, p_after, s_after)
  pub same_id : p_after.peripheral_id ≡ device_flash_id
  pub memory :
      (x : ℕ)
      → Apart p.peripheral_memory_buffer 1024 x 1
      → s_after.memory x ≡ written dest src (even_size size) s.memory x

-- What was written is read back.
pub record ReadBack (hw : Interface) (p : Peripheral) (s : Flash) (src dest size back : ℕ)
    : Type 0 where
  pub wrote : Wrote hw p s src dest size
  pub p_after : Peripheral
  pub s_after : Flash
  pub result :
      driver_read Flash (flash_driver hw) back dest size (wrote.p_after, wrote.s_after)
      ≡ (DriverState.success, p_after, s_after)
  pub same : bytes s_after.memory back size ≡ bytes s.memory src size

module _ (hw : Interface) (documented : Documented hw) (ready : Ready hw) where
  -- Writing to the flash by `driver_write` succeeds.
  pub driver_write-Wrote :
      (p : Peripheral) (s : Flash) (src dest size : ℕ)
      → p.peripheral_id ≡ device_flash_id
      → hw.unlock s.lock ≡ false
      → Fits p.peripheral_memory_buffer dest src size
      → Wrote hw p s src dest size
  unfolding ask
  driver_write-Wrote p s src dest size id unlock fits =
      let asked : Peripheral = ask Request.write src dest size p in
      let at : asked.peripheral_data_reg_ptr ≡ dest =
        rw (==-true p.peripheral_id device_flash_id id) refl in
      let fits' : Fits p.peripheral_memory_buffer asked.peripheral_data_reg_ptr src size =
        subst (λ (d : ℕ). Fits p.peripheral_memory_buffer d src size) (sym at) fits in
      let stored = flash_write-Stored hw documented ready asked s unlock fits' in
      let step : flash_driver hw (asked, s) ≡ (stored.p_after, stored.s_after) =
        driver-write_step hw asked s id
          (inside-Fits p.peripheral_memory_buffer asked.peripheral_data_reg_ptr src size fits') refl
        ∙ stored.result in
      record {
        p_after = stored.p_after;
        s_after = stored.s_after;
        result =
            driver_write-success Flash (flash_driver hw) src dest size p (stored.p_after) s
              (stored.s_after) step (stored.success);
        same_id = stored.same_id ∙ id;
        memory = λ x out.
            stored.memory x out ∙ ap (λ (d : ℕ). written d src (even_size size) s.memory x) at;
      }

  -- On a flash that behaves as documented, that the keys unlock and that is not busy at two reads
  -- of SR in a row: for a request that lies in the flash, with the source and the buffer of the
  -- driver outside of it and apart, `driver_write` returns SUCCESS and changes, outside that
  -- buffer, the bytes of the request and no other (an odd size takes one byte more); `driver_read`
  -- of the same request then returns SUCCESS and gives the bytes of the source.
  pub driver_write-ReadBack :
      (p : Peripheral) (s : Flash) (src dest size back : ℕ)
      → p.peripheral_id ≡ device_flash_id
      → hw.unlock s.lock ≡ false
      → Fits p.peripheral_memory_buffer dest src size
      → ReadBack hw p s src dest size back
  unfolding ask even_size
  driver_write-ReadBack p s src dest size back id unlock fits =
      let wrote = driver_write-Wrote p s src dest size id unlock fits in
      let q : Peripheral = wrote.p_after in
      let asked : Peripheral = ask Request.read back dest size q in
      let at : asked.peripheral_data_reg_ptr ≡ dest =
        rw (==-true q.peripheral_id device_flash_id (wrote.same_id)) refl in
      let inside : outside asked.peripheral_data_reg_ptr ≡ false =
        ap outside at ∙ inside-Fits p.peripheral_memory_buffer dest src size fits in
      let step = driver-read_step hw asked (wrote.s_after) (wrote.same_id) inside refl in
      let copied : bytes (memcpy back asked.peripheral_data_reg_ptr size wrote.s_after.memory) back
            size
          ≡ bytes wrote.s_after.memory dest size =
        bytes-memcpy_self back asked.peripheral_data_reg_ptr size wrote.s_after.memory
        ∙ ap (λ (d : ℕ). bytes wrote.s_after.memory d size) at in
      let no_wrap = fits.small in
      let low = fits.low in
      let high = fits.high in
      let buffer_outside = fits.buffer_outside in
      let stored : bytes wrote.s_after.memory dest size ≡ bytes s.memory src size =
        bytes_ext wrote.s_after.memory s.memory dest src size
          (λ j small. wrote.memory (dest + j) (ground arith) ∙ ground arith) in
      record {
        wrote = wrote;
        p_after = record asked { peripheral_status = DriverState.success };
        s_after = record (wrote.s_after) {
          memory = memcpy back asked.peripheral_data_reg_ptr size wrote.s_after.memory;
        };
        result =
            driver_read-success Flash (flash_driver hw) back dest size q
              (record asked { peripheral_status = DriverState.success }) (wrote.s_after)
              (record (wrote.s_after) {
                memory = memcpy back asked.peripheral_data_reg_ptr size wrote.s_after.memory;
              })
              step refl;
        same = copied ∙ stored;
      }
