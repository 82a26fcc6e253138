-- ===== src/Flash/Failure.antt =====
-- Writing to the flash where that cannot work: an address outside, a locked or a busy flash.
use stm32_os.Common.{
  ℕ, zero, suc, ◌+◌, ◌-◌, ◌*◌, ◌≤◌, ◌<◌, ◌≡◌, ◌⊎◌, inl, inr, ◌&&◌, arith, ◌==◌, if◌then◌else◌, ltb,
  refl, ◌∙◌, ap, Bool-cases, ==-true, Bool, true, false,
}
use stm32_os.Queue.{Memory, memcpy}
use stm32_os.Queue.Window.{Apart}
use stm32_os.Device.{Request}
use stm32_os.Peripheral.{
  Peripheral, DriverState, device_flash_id, ask, driver_read, driver_write, returned,
}
use stm32_os.Peripheral.Outcome.{driver_write-io_error, driver_read-io_error}
use stm32_os.Flash.{
  Flash, Interface, flash_end, write_page, fill, program, write_pages, outside, flash_driver,
}
use stm32_os.Flash.Copy.{fill-src, fill-size, fill-filled}
use stm32_os.Flash.Page.{Documented, Ready, flash_erasure-Erased}

-- A peripheral for the flash refuses an address outside of it, and a second time where it is shut
-- down: the transfer fails and the state is what it was.
pub record Refused (hw : Interface) (p : Peripheral) (s : Flash) (src dest size : ℕ) : Type 0 where
  pub read_after : Peripheral
  pub write_after : Peripheral
  pub read :
      driver_read Flash (flash_driver hw) src dest size (p, s)
      ≡ (DriverState.io_error, read_after, s)
  pub write :
      driver_write Flash (flash_driver hw) src dest size (p, s)
      ≡ (DriverState.io_error, write_after, s)

driver-outside_step :
    (hw : Interface) (p : Peripheral) (s : Flash)
    → p.peripheral_id ≡ device_flash_id
    → outside p.peripheral_data_reg_ptr ≡ true
    → flash_driver hw (p, s) ≡ (record p { peripheral_status = DriverState.io_error }, s)
unfolding flash_driver
driver-outside_step hw p s id out = rw (==-true p.peripheral_id device_flash_id id, out) refl

outside-true : (a : ℕ) → (a < 0x08008000) ⊎ (0x08010000 ≤ a) → outside a ≡ true
unfolding outside
outside-true a (inl low) = ground arith
outside-true a (inr high) = ground arith

-- Through the peripheral of the flash, `driver_read` and `driver_write` at an address below
-- 0x08008000, or from 0x08010000 on, return IO_ERROR, and the memory and the registers are what
-- they were.
pub flash_driver-Refused :
    (hw : Interface) (p : Peripheral) (s : Flash) (src dest size : ℕ)
    → p.peripheral_id ≡ device_flash_id
    → (dest < 0x08008000) ⊎ (0x08010000 ≤ dest)
    → Refused hw p s src dest size
unfolding ask
flash_driver-Refused hw p s src dest size id out =
    let asked : Request → Peripheral = λ request. ask request src dest size p in
    let refused : Request → Peripheral =
      λ request. record (asked request) { peripheral_status = DriverState.io_error } in
    let shut : Request → Peripheral = λ request. record (asked request) {
      peripheral_request = Request.uninit;
      peripheral_status = DriverState.io_error;
    } in
    let at : (if p.peripheral_id == device_flash_id then dest else p.peripheral_data_reg_ptr)
        ≡ dest =
      rw (==-true p.peripheral_id device_flash_id id) refl in
    let out' = ap outside at ∙ outside-true dest out in
    record {
      read_after = shut Request.read;
      write_after = shut Request.write;
      read =
          driver_read-io_error Flash (flash_driver hw) src dest size p (refused Request.read) s s
            (driver-outside_step hw (asked Request.read) s id out') refl
          ∙ ap (returned Flash (flash_driver hw))
              (driver-outside_step hw (shut Request.read) s id out');
      write =
          driver_write-io_error Flash (flash_driver hw) src dest size p (refused Request.write) s s
            (driver-outside_step hw (asked Request.write) s id out') refl
          ∙ ap (returned Flash (flash_driver hw))
              (driver-outside_step hw (shut Request.write) s id out');
    }

-- While LOCK is set nothing is programmed.
program-locked :
    (hw : Interface) (count b address times : ℕ) (m : Memory) (x : ℕ)
    → Documented hw
    → program hw count true b address times m x ≡ m x
unfolding program
program-locked hw zero b address times m x documented = refl
program-locked hw (suc count) b address times m x documented =
    let a : ℕ = address + 2 * times in
    program-locked hw count b address (times + 1)
      (hw.store true true a (m (b + 2 * times)) (m (b + 2 * times + 1)) m) x documented
    ∙ documented.locked_store true a (m (b + 2 * times)) (m (b + 2 * times + 1)) m x

-- The loop over the pages with LOCK set: only the buffer `b` changes.
pub record Locked (hw : Interface) (count b address_end address offset src size : ℕ) (s : Flash)
    : Type 0 where
  pub after : Flash
  pub result : write_pages hw count b address_end address offset src size s ≡ (true, after)
  pub memory : (x : ℕ) → Apart b 1024 x 1 → after.memory x ≡ s.memory x

pub write_pages-Locked :
    (hw : Interface) (count b address_end address offset src size : ℕ) (s : Flash)
    → Documented hw
    → Ready hw
    → s.lock ≡ true
    → offset ≤ 1024
    → Apart b 1024 src size
    → Locked hw count b address_end address offset src size s
unfolding write_pages write_page
write_pages-Locked hw zero b address_end address offset src size s documented ready locked small
      apart =
    record { after = s; result = refl; memory = λ x out. refl }
write_pages-Locked hw (suc count) b address_end address offset src size s documented ready locked
      small apart =
    elim (Bool-cases (ltb address flash_end && ltb address address_end)) [
      | inl e ↦
          let page : Memory = memcpy b address 1024 s.memory in
          let copied = fill (1024 - offset) b offset src size page in
          let src_after = fill-src (1024 - offset) b offset src size page in
          let size_after = fill-size (1024 - offset) b offset src size page in
          let step = flash_erasure-Erased hw address (record s { memory = copied.filled }) ready in
          let still : step.after.lock ≡ true = step.unlocked ∙ locked in
          let programmed : Memory =
            program hw 512 (step.after.lock) b address 0 (step.after.memory) in
          let rest =
            write_pages-Locked hw count b address_end (address + 1024) 0 (copied.src) (copied.size)
              (record (step.after) { pg = false; memory = programmed }) documented ready still
              (omega arith) (ground (arith, src_after, size_after)) in
          record {
            after = rest.after;
            result = rw (e, step.result, rest.result) refl;
            memory = λ x out.
                rest.memory x out
                ∙ ap (λ (l : Bool). program hw 512 l b address 0 step.after.memory x) still
                ∙ program-locked hw 512 b address 0 (step.after.memory) x documented
                ∙ ap (λ (m : Memory). m x) (step.memory)
                ∙ ap (λ (l : Bool). hw.erase l true address copied.filled x) locked
                ∙ documented.locked_erase true address (copied.filled) x
                ∙ fill-filled (1024 - offset) b offset src size page x (ground arith)
                ∙ ground arith;
          }
      | inr e ↦ record { after = s; result = rw e refl; memory = λ x out. refl }
    ]
