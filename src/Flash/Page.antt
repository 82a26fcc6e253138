-- ===== src/Flash/Page.antt =====
-- One page of the flash: waiting, programming the erased page, and the whole page.
use stm32_os.Common.{
  ℕ, zero, suc, ◌+◌, ◌-◌, ◌*◌, ◌/◌, ◌%◌, ◌≤◌, ◌<◌, ◌≡◌, inl, inr, ◌&&◌, arith, ◌==◌, if◌then◌else◌,
  leb, ltb, refl, ◌∙◌, ap, Bool-cases, Bool, true, false, subst, ap₂,
}
use stm32_os.Queue.{Memory, memcpy}
use stm32_os.Queue.Window.{Apart}
use stm32_os.Flash.{
  Flash, Interface, Copied, fill, flash_begin, flash_end, busy_at, flash_wait, flash_erasure,
  program, write_page,
}
use stm32_os.Flash.Copy.{copied_bytes, fill-src, fill-size, fill-filled}

-- The documented behaviour of the flash interface. An erased byte is 0xFF; a halfword that is
-- erased takes the two bytes that are stored; and nothing is changed while LOCK is set.
pub record Documented (hw : Interface) : Type 0 where
  pub erased :
      (ar : ℕ) (m : Memory) (x : ℕ)
      → flash_begin ≤ ar
      → ar < flash_end
      → hw.erase false true ar m x ≡ (if x / 1024 == ar / 1024 then 0xFF else m x)
  pub stored :
      (a low high : ℕ) (m : Memory) (x : ℕ)
      → flash_begin ≤ a
      → a < flash_end
      → a % 2 ≡ 0
      → m a ≡ 0xFF
      → m (a + 1) ≡ 0xFF
      → hw.store false true a low high m x
        ≡ (if x == a then low else if x == a + 1 then high else m x)
  pub locked_erase : (per : Bool) (ar : ℕ) (m : Memory) (x : ℕ) → hw.erase true per ar m x ≡ m x
  pub locked_store :
      (pg : Bool) (a low high : ℕ) (m : Memory) (x : ℕ) → hw.store true pg a low high m x ≡ m x

-- Of any two reads of SR that follow each other one finds the flash ready.
abbrev pub Ready : Interface → Type 0
Ready hw = (n : ℕ) → busy_at hw n ≡ true → busy_at hw (n + 1) ≡ false

-- The loop of FLASH_WAIT ends without an error and changes nothing but the number of reads.
pub record Waited (retries : ℕ) (hw : Interface) (s : Flash) : Type 0 where
  pub reads : ℕ
  pub result : flash_wait hw retries s ≡ (true, record s { reads = reads })

pub flash_wait-Waited : (retries : ℕ) (hw : Interface) (s : Flash) → Ready hw → Waited retries hw s
unfolding flash_wait
flash_wait-Waited zero hw s ready = record { reads = s.reads; result = refl }
flash_wait-Waited (suc retries) hw s ready =
    let next = flash_wait-Waited retries hw (record s { reads = s.reads + 2 }) ready in
    elim (Bool-cases (busy_at hw s.reads)) [
      | inl e ↦
          let free = ready s.reads e in
          record { reads = next.reads; result = rw (e, free) (next.result) }
      | inr e ↦ record { reads = s.reads + 1; result = rw e refl }
    ]

module _ (hw : Interface) (documented : Documented hw) where
  -- Of an erased page the rest is programmed from halfword `times` on.
  pub program-stored :
      (count b address times : ℕ) (m : Memory) (x : ℕ)
      → times + count ≤ 512
      → flash_begin ≤ address
      → address + 1024 ≤ flash_end
      → address % 2 ≡ 0
      → Apart b 1024 address 1024
      → ((y : ℕ) → address + 2 * times ≤ y → y < address + 1024 → m y ≡ 0xFF)
      → program hw count false b address times m x ≡ (
          if leb (address + 2 * times) x && ltb x (address + 2 * (times + count))
          then m (b + (x - address))
          else m x)
  unfolding program
  program-stored zero b address times m x fits low high even apart erased = ground arith
  program-stored (suc count) b address times m x fits low high even apart erased =
      let a : ℕ = address + 2 * times in
      let m' : Memory = hw.store false true a (m (b + 2 * times)) (m (b + 2 * times + 1)) m in
      let law : (y : ℕ)
          → m' y ≡ (
              if y == a
              then m (b + 2 * times)
              else if y == a + 1
              then m (b + 2 * times + 1)
              else m y) =
        λ y.
          documented.stored a (m (b + 2 * times)) (m (b + 2 * times + 1)) m y (omega arith)
            (omega arith) (omega arith) (erased a (omega arith) (omega arith))
            (erased (a + 1) (omega arith) (omega arith)) in
      let blank : (y : ℕ) → address + 2 * (times + 1) ≤ y → y < address + 1024 → m' y ≡ 0xFF =
        λ y above below. law y ∙ ground (arith, erased y) in
      let rest =
        program-stored count b address (times + 1) m' x (omega arith) low high even apart blank in
      rest ∙ ground (arith, law x, law (b + (x - address)))

same_page :
    (address y : ℕ)
    → address % 1024 ≡ 0
    → (y / 1024 == address / 1024) ≡ (leb address y && ltb y (address + 1024))
same_page address y aligned = ground arith

-- The macro that erases a page ends without an error.
pub record Erased (hw : Interface) (address : ℕ) (s : Flash) : Type 0 where
  pub after : Flash
  pub result : flash_erasure hw address s ≡ (true, after)
  pub unlocked : after.lock ≡ s.lock
  pub memory : after.memory ≡ hw.erase s.lock true address s.memory

pub flash_erasure-Erased :
    (hw : Interface) (address : ℕ) (s : Flash) → Ready hw → Erased hw address s
unfolding flash_erasure
flash_erasure-Erased hw address s ready =
    let started : Flash = record s {
      per = true;
      ar = address;
      strt = true;
      memory = hw.erase s.lock true address s.memory;
    } in
    let waited = flash_wait-Waited 0x1000 hw started ready in
    record {
      after = record started { reads = waited.reads; per = false; strt = false };
      result = rw (waited.result) refl;
      unlocked = refl;
      memory = refl;
    }

-- A byte of the flash after `size` bytes from `src` on were written to `at`.
abbrev pub written : (at src size : ℕ) → Memory → Memory
written at src size m x = if leb at x && ltb x (at + size) then m (src + (x - at)) else m x

pub record WrittenPage (hw : Interface) (b address offset src size : ℕ) (s : Flash) : Type 0 where
  pub copied : Copied
  pub after : Flash
  pub result : write_page hw b address offset src size s ≡ (true, copied, after)
  pub src_after : copied.src ≡ src + copied_bytes (1024 - offset) size
  pub size_after : copied.size ≡ size - copied_bytes (1024 - offset) size
  pub unlocked : after.lock ≡ false
  pub memory :
      (x : ℕ)
      → Apart b 1024 x 1
      → after.memory x
        ≡ written (address + offset) src (copied_bytes (1024 - offset) size) s.memory x

module _ (hw : Interface) (documented : Documented hw) where
  -- The memory of the page, with the steps of the source put together.
  page_memory :
      (b address offset src size x : ℕ) (m : Memory)
      → offset ≤ 1024
      → flash_begin ≤ address
      → address + 1024 ≤ flash_end
      → address % 1024 ≡ 0
      → Apart b 1024 flash_begin 0x8000
      → Apart b 1024 src size
      → Apart b 1024 x 1
      → (let k = copied_bytes (1024 - offset) size in
          let page = memcpy b address 1024 m in
          let filled = (fill (1024 - offset) b offset src size page).filled in
          let erased = hw.erase false true address filled in
          program hw 512 false b address 0 erased x ≡ written (address + offset) src k m x)
  page_memory b address offset src size x m small low high aligned away from_buffer out =
      let page : Memory = memcpy b address 1024 m in
      let filled : Memory = (fill (1024 - offset) b offset src size page).filled in
      let erased : Memory = hw.erase false true address filled in
      let fill_law : (y : ℕ)
          → filled y ≡ written (b + offset) src (copied_bytes (1024 - offset) size) page y =
        λ y. fill-filled (1024 - offset) b offset src size page y (ground arith) in
      let erase_law : (y : ℕ)
          → erased y ≡ (if leb address y && ltb y (address + 1024) then 0xFF else filled y) =
        λ y.
          subst (λ (c : Bool). erased y ≡ (if c then 0xFF else filled y))
            (same_page address y aligned) (documented.erased address filled y low (omega arith)) in
      let program_law =
        program-stored hw documented 512 b address 0 erased x (omega arith) low high (omega arith)
          (ground arith) (λ y above below. erase_law y ∙ ground arith) in
      program_law ∙ elim (Bool-cases (leb address x && ltb x (address + 1024))) [
        | inl e ↦
            let y : ℕ = b + (x - address) in
            let buffer : erased y ≡ filled y = erase_law y ∙ ground arith in
            let value : filled y
                ≡ written (address + offset) src (copied_bytes (1024 - offset) size) m x =
              fill_law y
              ∙ elim (Bool-cases (
                  leb offset (x - address)
                  && ltb (x - address) (offset + copied_bytes (1024 - offset) size))) [
                    | inl f ↦ ground arith
                    | inr f ↦ ground arith
                  ] in
            ground (arith, buffer, value)
        | inr e ↦
            let same : erased x ≡ filled x = erase_law x ∙ ground arith in
            let value : filled x ≡ m x = fill_law x ∙ ground arith in ground (arith, same, value)
      ]

  pub write_page-WrittenPage :
      (b address offset src size : ℕ) (s : Flash)
      → Ready hw
      → s.lock ≡ false
      → offset ≤ 1024
      → flash_begin ≤ address
      → address + 1024 ≤ flash_end
      → address % 1024 ≡ 0
      → Apart b 1024 flash_begin 0x8000
      → Apart b 1024 src size
      → WrittenPage hw b address offset src size s
  unfolding write_page
  write_page-WrittenPage b address offset src size s ready unlock small low high aligned away
        from_buffer =
      let copied : Copied =
        fill (1024 - offset) b offset src size (memcpy b address 1024 s.memory) in
      let step = flash_erasure-Erased hw address (record s { memory = copied.filled }) ready in
      let unlocked : step.after.lock ≡ false = step.unlocked ∙ unlock in
      let erased : step.after.memory ≡ hw.erase false true address copied.filled =
        step.memory ∙ ap (λ (l : Bool). hw.erase l true address copied.filled) unlock in
      record {
        copied = copied;
        after = record (step.after) {
          pg = false;
          memory = program hw 512 (step.after.lock) b address 0 (step.after.memory);
        };
        result = rw (step.result) refl;
        src_after = fill-src (1024 - offset) b offset src size (memcpy b address 1024 s.memory);
        size_after = fill-size (1024 - offset) b offset src size (memcpy b address 1024 s.memory);
        unlocked = unlocked;
        memory = λ x out.
            ap₂ (λ (l : Bool) (m : Memory). program hw 512 l b address 0 m x) unlocked erased
            ∙ page_memory b address offset src size x s.memory small low high aligned away
                from_buffer out;
      }
