-- ===== src/Bus/Spi/Exchange.antt =====
-- What a read and a write by the processor exchange with the device on the SPI.
use stm32_os.Common.{
  ℕ, zero, suc, ◌+◌, ◌-◌, ◌%◌, ◌≡◌, true, List, [], ◌∷◌, ◌++◌, ◌&&◌, if◌then◌else◌, leb, ltb,
  update, arith, refl, sym, ◌∙◌,
}
use mathlib.Core.List.{append_assoc, append-nil}
use stm32_os.Device.{ExeState, Request}
use stm32_os.Bus.{Event, Bus, wait, delay}
use stm32_os.Bus.I2c.Sent.{Prompt, sent}
use stm32_os.Bus.Spi.{Spi, device_spi_id, enable, read_bytes, write_bytes, spi_driver}

-- The bytes 0xFF that are sent to get as many.
abbrev pub dummies : ℕ → List Event
dummies zero = []
dummies (suc n) = Event.byte 0xFF ∷ dummies n

-- The bus after `size` bytes were read to `buff`.
pub record Received (status data_register : ℕ → ℕ) (size buff : ℕ) (s : Bus) : Type 0 where
  pub after : Bus
  pub result : read_bytes status data_register size buff s ≡ (true, after)
  pub events : after.events ≡ s.events ++ dummies size
  pub memory :
      (x : ℕ)
      → after.memory x ≡ (
          if leb buff x && ltb x (buff + size)
          then data_register (s.received + (x - buff)) % 256
          else s.memory x)

pub read_bytes-Received :
    (status data_register : ℕ → ℕ) (size buff : ℕ) (s : Bus)
    → Prompt status 0x1000 0x02
    → Prompt status 0x1000 0x01
    → Received status data_register size buff s
unfolding read_bytes delay
read_bytes-Received status data_register zero buff s free come = record {
  after = s;
  result = refl;
  events = sym (append-nil s.events);
  memory = λ x. ground arith;
}
read_bytes-Received status data_register (suc size) buff s free come =
    let n : ℕ = wait status 0x1000 0x02 s.reads in
    let k : ℕ = wait status 0x1000 0x01 (n + 1) in
    let taken : Bus = record {
      memory = update s.memory buff (data_register s.received % 256);
      events = s.events ++ Event.byte 0xFF ∷ [];
      reads = k + 1;
      received = s.received + 1;
    } in
    let rest = read_bytes-Received status data_register size (buff + 1) taken free come in
    record {
      after = rest.after;
      result = rw (free s.reads, come (n + 1), rest.result) refl;
      events = rest.events ∙ append_assoc s.events (Event.byte 0xFF ∷ []) (dummies size);
      memory = λ x. rest.memory x ∙ ground arith;
    }

-- The bus after `size` bytes from `buff` on were written.
pub record WrittenOut (status data_register : ℕ → ℕ) (size buff : ℕ) (s : Bus) : Type 0 where
  pub after : Bus
  pub result : write_bytes status data_register size buff s ≡ (true, after)
  pub events : after.events ≡ s.events ++ sent s.memory buff size
  pub memory : after.memory ≡ s.memory

pub write_bytes-WrittenOut :
    (status data_register : ℕ → ℕ) (size buff : ℕ) (s : Bus)
    → Prompt status 0x200 0x02
    → WrittenOut status data_register size buff s
unfolding write_bytes delay
write_bytes-WrittenOut status data_register zero buff s answers = record {
  after = s;
  result = refl;
  events = sym (append-nil s.events);
  memory = refl;
}
write_bytes-WrittenOut status data_register (suc size) buff s answers =
    let n : ℕ = wait status 0x200 0x02 s.reads in
    let next : Bus = record s {
      events = s.events ++ Event.byte (s.memory buff) ∷ [];
      reads = n + 1;
    } in
    let rest = write_bytes-WrittenOut status data_register size (buff + 1) next answers in
    record {
      after = rest.after;
      result = rw (answers s.reads, rest.result) refl;
      events =
          rest.events
          ∙ append_assoc s.events (Event.byte (s.memory buff) ∷ []) (sent s.memory (buff + 1) size);
      memory = rest.memory;
    }

-- A read and a write by the processor, each in the state `s`.
pub record Exchanged (status data_register : ℕ → ℕ) (ptr dr buff size : ℕ) (s : Spi) : Type 0 where
  pub read : Received status data_register size buff s.bus
  pub read_result :
      spi_driver status data_register ptr device_spi_id dr buff size Request.read s
      ≡ (ExeState.exe_success, record s { cr1 = enable s.cr1; bus = read.after })
  pub write : WrittenOut status data_register size buff s.bus
  pub write_result :
      spi_driver status data_register ptr device_spi_id dr buff size Request.write s
      ≡ (ExeState.exe_success, record s { cr1 = enable s.cr1; bus = write.after })

-- Where each wait of the driver finds its flag set: READ enables the SPI, sends 0xFF for each byte,
-- puts the low byte of what DR then reads at its place in the buffer and changes no other memory;
-- WRITE enables the SPI, sends the bytes of the buffer in their order and changes no memory. Both
-- succeed.
pub spi_driver-Exchanged :
    (status data_register : ℕ → ℕ) (ptr dr buff size : ℕ) (s : Spi)
    → Prompt status 0x1000 0x02
    → Prompt status 0x1000 0x01
    → Prompt status 0x200 0x02
    → Exchanged status data_register ptr dr buff size s
unfolding spi_driver
spi_driver-Exchanged status data_register ptr dr buff size s free come soon =
    let read = read_bytes-Received status data_register size buff s.bus free come in
    let write = write_bytes-WrittenOut status data_register size buff s.bus soon in
    record {
      read = read;
      read_result = rw (read.result) refl;
      write = write;
      write_result = rw (write.result) refl;
    }
