-- ===== src/Flash/Tests.antt =====
-- Witnesses of the flash driver, on an interface that is never busy and one that always is.
use stm32_os.Common.{
  ℕ, ◌+◌, ◌/◌, ◌%◌, inl, inr, ◌&&◌, arith, ◌==◌, if◌then◌else◌, refl, Bool, true, false, not,
}
use stm32_os.Device.{Request}
use stm32_os.Peripheral.{Peripheral, DriverState, device_flash_id}
use stm32_os.Flash.{Flash, Interface, even_size}
use stm32_os.Flash.Page.{Documented, Ready}
use stm32_os.Flash.Requests.{Fits}
use stm32_os.Flash.Transfers.{ReadBack, driver_write-ReadBack}
use stm32_os.Flash.Failure.{Refused, flash_driver-Refused}
use stm32_os.Flash.Lost.{Blanked, driver_write-Blanked}

abbrev quick : (sr : ℕ) (locked : Bool) → Interface
quick sr locked = record {
  sr = λ n. sr;
  unlock = λ l. locked;
  erase = λ l per ar m x. if not l && per && (x / 1024 == ar / 1024) then 0xFF else m x;
  store = λ l pg a low high m x.
      if not l && pg && (x == a) then low else if not l && pg && (x == a + 1) then high else m x;
}

quick-Documented : (sr : ℕ) (locked : Bool) → Documented (quick sr locked)
quick-Documented sr locked = record {
  erased = λ ar m x low high. refl;
  stored = λ a low high m x above below even first second. refl;
  locked_erase = λ per ar m x. refl;
  locked_store = λ pg a low high m x. refl;
}

quick-Ready : (locked : Bool) → Ready (quick 0 locked)
quick-Ready locked n busy = refl

abbrev flash : Peripheral
flash = record {
  peripheral_id = device_flash_id;
  peripheral_request = Request.init;
  peripheral_status = DriverState.io_error;
  peripheral_operate_bytes = 0;
  peripheral_buffer = 0;
  peripheral_memory_buffer = 0x20000000;
  peripheral_memory_size = 1024;
  peripheral_data_reg_ptr = 0;
  mode = 0;
  speed = 0;
  reg_base = 0x40022000;
  dma_channel_rx = 0;
  dma_channel_tx = 0;
  peripheral_complete_notify = 0;
  peripheral_error_notify = 0;
}

abbrev fresh : Flash
fresh = record {
  memory = λ a. a % 256;
  pg = false;
  per = false;
  strt = false;
  lock = true;
  ar = 0;
  reads = 0;
}

-- Five bytes across the border of two pages.
abbrev border : ℕ
border = 0x080083FE

five-Fits : Fits 0x20000000 border 0x20001000 5
unfolding even_size
five-Fits = record {
  small = omega arith;
  low = omega arith;
  inside = omega arith;
  high = omega arith;
  buffer_outside = inr (omega arith);
  source_outside = inr (omega arith);
  source_apart = inl (omega arith);
}

driver_write-ReadBack_example : ReadBack (quick 0 false) flash fresh 0x20001000 border 5 0x20002000
driver_write-ReadBack_example =
    driver_write-ReadBack (quick 0 false) (quick-Documented 0 false) (quick-Ready false) flash fresh
      0x20001000 border 5 0x20002000 refl refl five-Fits

flash_driver-Refused_example : Refused (quick 0 false) flash fresh 0x20001000 0x08010000 5
flash_driver-Refused_example =
    flash_driver-Refused (quick 0 false) flash fresh 0x20001000 0x08010000 5 refl
      (inr (omega arith))

driver_write-Blanked_example : Blanked (quick 1 false) flash fresh 0x20001000 border 5
driver_write-Blanked_example =
    driver_write-Blanked (quick 1 false) flash fresh 0x20001000 border 5 (quick-Documented 1 false)
      refl refl refl refl (omega arith) five-Fits
