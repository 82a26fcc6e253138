-- ===== src/Flash.antt =====
-- Driver/driver_FLASH.c: the driver of the flash memory inside the controller, which is written by
-- pages: a page is copied to a buffer, changed there, erased and programmed again.
pub mod Copy
pub mod Failure
pub mod Lost
pub mod Page
pub mod Requests
pub mod Transfers
pub mod Write
mod Tests
use stm32_os.Common.{
  ℕ, zero, suc, ◌+◌, ◌-◌, ◌*◌, ◌/◌, ◌%◌, ◌^◌, ◌≡◌, ◌≤◌, ◌<◌, Bool, true, false, ◌&&◌, ◌||◌, not,
  ◌==◌, if◌then◌else◌, leb, ltb, update,
}
use stm32_os.Queue.{Memory, memcpy}
use stm32_os.Device.{Request}
use stm32_os.Peripheral.{Peripheral, DriverState, device_flash_id}

-- FLASH_BEGIN, FLASH_END, and FLASH_BUF_SIZE, which is the size of a page too.
abbrev pub flash_begin : ℕ
flash_begin = 0x08008000

abbrev pub flash_end : ℕ
flash_end = 0x08010000

abbrev pub flash_buf_size : ℕ
flash_buf_size = 1024

-- The memory, with the flash in it, and of the registers the bits of CR that the driver uses and
-- AR. `reads` counts how often SR was read; what is written to SR clears a flag that nothing reads.
pub record Flash : Type 0 where
  pub memory : Memory
  pub pg : Bool  -- 0x01
  pub per : Bool  -- 0x02
  pub strt : Bool  -- 0x40
  pub lock : Bool  -- 0x80
  pub ar : ℕ
  pub reads : ℕ

-- What the flash interface does: the value of each read of SR, the bit LOCK after the two keys were
-- written, the memory after STRT was set, and after a store of a halfword, given as its two bytes.
pub record Interface : Type 0 where
  pub sr : ℕ → ℕ
  pub unlock : Bool → Bool
  pub erase : (lock per : Bool) (ar : ℕ) → Memory → Memory
  pub store : (lock pg : Bool) (address low high : ℕ) → Memory → Memory

-- The loop that copies from `src` to the buffer `b`, from `offset` on, with what it leaves.
pub record Copied : Type 0 where
  pub src : ℕ
  pub size : ℕ
  pub filled : Memory

pub fill : (count : ℕ) (b offset src size : ℕ) → Memory → Copied
fill zero b offset src size m = record { src = src; size = size; filled = m }
fill (suc count) b offset src size m =
    let rest = fill count b (offset + 1) (src + 1) (size - 1) (update m (b + offset) (m src)) in
    if size == 0 then record { src = src; size = size; filled = m } else rest

-- peripheral_operate_bytes is made even.
pub even_size : ℕ → ℕ
even_size size = if size % 2 == 1 then (size + 1) % 2 ^ 32 else size

-- The guard of the driver.
pub outside : ℕ → Bool
outside address = ltb address flash_begin || leb flash_end address

module _ (hw : Interface) where
  abbrev pub busy_at : ℕ → Bool
  busy_at n = hw.sr n % 2 == 1

  -- FLASH_WAIT. The loop reads SR twice, and does not wait while the flash is busy: it is left
  -- with an error as soon as both reads say so.
  pub flash_wait : (retries : ℕ) → Flash → Bool × Flash
  flash_wait zero s = (true, s)
  flash_wait (suc retries) s =
      let next = flash_wait retries (record s { reads = s.reads + 2 }) in
      if not (busy_at s.reads)
      then (true, record s { reads = s.reads + 1 })
      else if busy_at (s.reads + 1)
      then (false, record s { reads = s.reads + 2 })
      else next

  -- FLASH_ERASURE
  pub flash_erasure : (address : ℕ) → Flash → Bool × Flash
  flash_erasure address s =
      let started = record s {
        per = true;
        ar = address;
        strt = true;
        memory = hw.erase s.lock true address s.memory;
      } in
      let (ready, s1) = flash_wait 0x1000 started in
      if ready then (true, record s1 { per = false; strt = false }) else (false, s1)

  -- The stores of `count` halfwords of the buffer `b`, from halfword `times` on.
  pub program : (count : ℕ) (lock : Bool) (b address times : ℕ) → Memory → Memory
  program zero lock b address times m = m
  program (suc count) lock b address times m =
      program count lock b address (times + 1)
        (hw.store lock true (address + 2 * times) (m (b + 2 * times)) (m (b + 2 * times + 1)) m)

  -- The body of the loop for one page: whether it was not left by FLASH_WAIT, what is left to
  -- copy, and the state.
  pub write_page : (b address offset src size : ℕ) → Flash → Bool × Copied × Flash
  write_page b address offset src size s =
      let page = memcpy b address flash_buf_size s.memory in
      let copied = fill (flash_buf_size - offset) b offset src size page in
      let (ready, s1) = flash_erasure address (record s { memory = copied.filled }) in
      if ready
      then (
        true,
        copied,
        record s1 { pg = false; memory = program 512 s1.lock b address 0 s1.memory },
      )
      else (false, copied, s1)

  pub write_pages : (count : ℕ) (b address_end address offset src size : ℕ) → Flash → Bool × Flash
  write_pages zero b address_end address offset src size s = (true, s)
  write_pages (suc count) b address_end address offset src size s =
      let (ready, copied, s1) = write_page b address offset src size s in
      let rest =
        write_pages count b address_end (address + flash_buf_size) 0 copied.src copied.size s1 in
      if not (ltb address flash_end && ltb address address_end)
      then (true, s)
      else if ready
      then rest
      else (false, s1)

  -- The case WRITE. The area has 32 pages. Where LOCK is still set the status is set to an error,
  -- and to SUCCESS at the end.
  pub flash_write : Peripheral → Flash → Peripheral × Flash
  flash_write p s =
      let size = even_size p.peripheral_operate_bytes in
      let dest = p.peripheral_data_reg_ptr in
      let unlocked = record s { lock = hw.unlock s.lock } in
      let status = if unlocked.lock then DriverState.io_error else p.peripheral_status in
      let asked = record p { peripheral_operate_bytes = size; peripheral_status = status } in
      let (ready, s1) =
        write_pages 33 p.peripheral_memory_buffer ((dest + size) % 2 ^ 32) (dest / 1024 * 1024)
          (dest % 1024) p.peripheral_buffer size unlocked in
      if ready
      then (
        record asked { peripheral_status = DriverState.success },
        record s1 { pg = false; per = false; strt = false; lock = true },
      )
      else (record asked { peripheral_status = DriverState.io_error }, s1)

  pub flash_driver : Peripheral × Flash → Peripheral × Flash
  flash_driver (p, s) =
      if not (p.peripheral_id == device_flash_id)
      then (p, s)
      else if outside p.peripheral_data_reg_ptr
      then (record p { peripheral_status = DriverState.io_error }, s)
      else elim p.peripheral_request [
        | Request.read ↦ (
          record p { peripheral_status = DriverState.success },
          record s {
            memory =
                memcpy p.peripheral_buffer p.peripheral_data_reg_ptr p.peripheral_operate_bytes
                  s.memory;
          },
        )
        | Request.write ↦ flash_write p s
        | Request.init ↦ (record p { peripheral_status = DriverState.success }, s)
        | Request.uninit ↦ (record p { peripheral_status = DriverState.success }, s)
        | Request.read_asyn ↦ (record p { peripheral_status = DriverState.io_error }, s)
        | Request.write_asyn ↦ (record p { peripheral_status = DriverState.io_error }, s)
      ]

  -- FLASH_INIT, where `flash_buf` is the address of the buffer and `base` that of the registers.
  -- The address field is still 0 when the driver is called, and so the driver refuses.
  pub flash_init : (flash_buf base : ℕ) → Flash → Peripheral × Flash
  flash_init flash_buf base s = flash_driver (
    record {
      peripheral_id = device_flash_id;
      peripheral_request = Request.init;
      peripheral_status = DriverState.io_error;
      peripheral_operate_bytes = 0;
      peripheral_buffer = 0;
      peripheral_memory_buffer = flash_buf;
      peripheral_memory_size = flash_buf_size;
      peripheral_data_reg_ptr = 0;
      mode = 0;
      speed = 0;
      reg_base = base;
      dma_channel_rx = 0;
      dma_channel_tx = 0;
      peripheral_complete_notify = 0;
      peripheral_error_notify = 0;
    },
    s,
  )
