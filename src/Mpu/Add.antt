-- ===== src/Mpu/Add.antt =====
-- mpu_add enters a region into the bank that is filled.
use stm32_os.Common.{
  ℕ, zero, suc, ◌+◌, ◌-◌, ◌%◌, ◌^◌, if◌then◌else◌, ap, ◌≤◌, ◌<◌, ◌≡◌, ◌⊎◌, refl, sym, subst, arith,
  ◌==◌, Bool-cases, inl, inr, true, false, ltb, update,
}
use stm32_os.Mpu.{
  region_number, Permissions, rank, Region, Regions, Mpu, MpuState, make_region, overlapping,
  last_address, add_from, mpu_add, cleared,
}
use stm32_os.Mpu.Rasr.{IsSound}
use stm32_os.Mpu.Overlap.{Hit, Clash, overlapping-Clash, overlapping-none}

-- The region is in the first place that was free, and nothing else changed; no two of the regions
-- that the bank had up to that place clash ...
pub record Entered (first : ℕ) (region : Region) (r : Regions) (t : MpuState × Mpu) : Type 0 where
  pub place : ℕ
  pub succeeds : t.0 ≡ MpuState.exe_success
  pub from : first ≤ place
  pub below : place < region_number
  pub was_free : (r place).valid ≡ false
  pub used_before : (j : ℕ) → first ≤ j → j < place → (r j).valid ≡ true
  pub apart : (j k : ℕ) → j ≤ place → k ≤ place → ¬ Hit r j k
  pub regions : t.1.next_regions ≡ update r place region

-- ... or no region changed, because two of them clash ...
pub record Clashed (first : ℕ) (r : Regions) (t : MpuState × Mpu) : Type 0 where
  pub place : ℕ
  pub fails : t.0 ≡ MpuState.exe_para_error
  pub was_free : (r place).valid ≡ false
  pub used_before : (j : ℕ) → first ≤ j → j < place → (r j).valid ≡ true
  pub clash : Clash r place
  pub regions : t.1.next_regions ≡ r

-- ... or because no place was free.
pub record Full (first : ℕ) (r : Regions) (t : MpuState × Mpu) : Type 0 where
  pub fails : t.0 ≡ MpuState.exe_unknow_error
  pub used : (j : ℕ) → first ≤ j → j < region_number → (r j).valid ≡ true
  pub regions : t.1.next_regions ≡ r

abbrev pub Ends : (first : ℕ) → Region → Regions → MpuState × Mpu → Type 0
Ends first region r t = Entered first region r t ⊎ (Clashed first r t ⊎ Full first r t)

-- One place more that is used.
used_from :
    (n high : ℕ) (r : Regions)
    → (r n).valid ≡ true
    → ((j : ℕ) → n + 1 ≤ j → j < high → (r j).valid ≡ true)
    → (j : ℕ) → n ≤ j
    → j < high
    → (r j).valid ≡ true
used_from n high r used after j ge lt = elim (Bool-cases (n == j)) [
  | inl same ↦ let at : n ≡ j = ground arith in subst (λ k. (r k).valid ≡ true) at used
  | inr other ↦ after j (ground arith) lt
]

later :
    (n : ℕ) (region : Region) (r : Regions) (t : MpuState × Mpu)
    → (r n).valid ≡ true
    → Ends (n + 1) region r t
    → Ends n region r t
later n region r t used (inl e) = inl (record {
  place = e.place;
  succeeds = e.succeeds;
  from = let from = e.from in omega arith;
  below = e.below;
  was_free = e.was_free;
  used_before = used_from n e.place r used e.used_before;
  apart = e.apart;
  regions = e.regions;
})
later n region r t used (inr (inl e)) = inr (
    inl (record {
      place = e.place;
      fails = e.fails;
      was_free = e.was_free;
      used_before = used_from n e.place r used e.used_before;
      clash = e.clash;
      regions = e.regions;
    }))
later n region r t used (inr (inr e)) = inr (
    inr (record {
      fails = e.fails;
      used = used_from n region_number r used e.used;
      regions = e.regions;
    }))

add_from-Ends :
    (count n : ℕ) (region : Region) (m : Mpu)
    → n + count ≡ region_number
    → Ends n region m.next_regions (add_from count n region m)
unfolding add_from
add_from-Ends zero n region m sum =
    inr (inr (record { fails = refl; used = λ j ge lt. absurd (omega arith); regions = refl }))
add_from-Ends (suc count) n region m sum =
    let r = m.next_regions in
    let old = r n in
    let m1 : Mpu = record m {
      bases = update m.bases n old.base_address;
      ends = update m.ends n old.end_address;
    } in
    let before : (j : ℕ) → n ≤ j → j < n → (r j).valid ≡ true = λ j ge lt. absurd (omega arith) in
    elim (Bool-cases old.valid) [
      | inr free ↦ elim (Bool-cases (overlapping (n + 1) 0 n r)) [
        | inl clash ↦ inr (
            inl (
              rw (free, clash)
                (record {
                  place = n;
                  fails = refl;
                  was_free = free;
                  used_before = before;
                  clash = overlapping-Clash (n + 1) 0 n r (omega arith) clash;
                  regions = refl;
                })))
        | inr fits ↦ inl (
            rw (free, fits)
              (record {
                place = n;
                succeeds = refl;
                from = omega arith;
                below = omega arith;
                was_free = free;
                used_before = before;
                apart = λ j k lj lk.
                    overlapping-none (n + 1) 0 n j k r fits lj (omega arith) (omega arith);
                regions = refl;
              }))
      ]
      | inl used ↦ rw used (
          later n region r (add_from count (n + 1) region m1) used
            (add_from-Ends count (n + 1) region m1 (omega arith)))
    ]

-- All regions of a bank are sound.
abbrev pub AllSound : Regions → Type 0
AllSound r = (j : ℕ) → j < region_number → IsSound (r j)

update-AllSound :
    (r : Regions) (place : ℕ) (region : Region)
    → AllSound r
    → IsSound region
    → AllSound (update r place region)
update-AllSound r place region all one j lt = elim (Bool-cases (place == j)) [
  | inl e ↦ rw e one
  | inr e ↦ rw e (all j lt)
]

-- The region that is asked for: it ends at the last of its 2 ^ (size + 1) bytes, in the addresses
-- of 32 bits.
abbrev pub region_of : (base size : ℕ) (privileged unprivileged : Permissions) → Region
region_of base size privileged unprivileged = record {
  valid = true;
  base_address = base;
  end_address = (base + 2 ^ (size + 1) + 0xFFFFFFFF) % 2 ^ 32;
  region_size = size;
  privileged = privileged;
  unprivileged = unprivileged;
}

make_region-region_of :
    (base size : ℕ) (privileged unprivileged : Permissions)
    → make_region base size privileged unprivileged ≡ region_of base size privileged unprivileged
unfolding make_region
make_region-region_of base size privileged unprivileged =
    let n : ℕ = 2 ^ (size + 1) in
    let last : (base + n % 2 ^ 32) % 2 ^ 32 + 2 ^ 32 - 1
        ≡ (base + n % 2 ^ 32) % 2 ^ 32 + 0xFFFFFFFF =
      omega arith in
    let same : last_address base size ≡ (base + n + 0xFFFFFFFF) % 2 ^ 32 = omega arith in
    ap
      (λ e. record {
        valid = true;
        base_address = base;
        end_address = e;
        region_size = size;
        privileged = privileged;
        unprivileged = unprivileged;
      })
      same

-- What mpu_add leaves for the permissions `p` and `u`.
pub record Adds (r : Regions) (base size : ℕ) (p u : Permissions) (t : MpuState × Mpu)
    : Type 0 where
  pub outcome :
      if ltb (rank p) (rank u)
      then (t.0 ≡ MpuState.exe_para_error) × (t.1.next_regions ≡ r)
      else Ends 0 (region_of base size p u) r t
  pub sound : AllSound t.1.next_regions

Ends-AllSound :
    (r : Regions) (region : Region) (t : MpuState × Mpu)
    → AllSound r
    → IsSound region
    → Ends 0 region r t
    → AllSound t.1.next_regions
Ends-AllSound r region t all one (inl e) =
    subst AllSound (sym e.regions) (update-AllSound r e.place region all one)
Ends-AllSound r region t all one (inr (inl e)) = subst AllSound (sym e.regions) all
Ends-AllSound r region t all one (inr (inr e)) = subst AllSound (sym e.regions) all

-- In a bank of sound regions, mpu_add with the number of an enumerator as size, not that of 4 GB.
-- Where the unprivileged permissions are the larger ones, it reports an error and changes no
-- region. Else it looks for the first place whose region is not valid. If two of the regions that
-- the bank has up to that place, that place included, clash, so that the base address of one lies
-- in the other, it reports the same error; if there is no such place, another one; and no region
-- changes. If none of them clash it succeeds: the new region, with its base, its permissions and
-- the address of its last byte, is in that place, and no other region changes. The regions stay
-- sound. The new region is not compared with any.
pub mpu_add-Adds :
    (base size : ℕ) (privileged unprivileged : Permissions) (m : Mpu)
    → size < 31
    → AllSound m.next_regions
    → Adds m.next_regions base size privileged unprivileged
        (mpu_add base size privileged unprivileged m)
unfolding mpu_add
mpu_add-Adds base size privileged unprivileged m lt all =
    let r = m.next_regions in
    let m1 : Mpu = record m { bases = cleared m.bases; ends = cleared m.ends } in
    let region = region_of base size privileged unprivileged in
    let made = make_region-region_of base size privileged unprivileged in
    elim (Bool-cases (ltb (rank privileged) (rank unprivileged))) [
      | inl e ↦ record { outcome = rw e (refl, refl); sound = rw e all }
      | inr e ↦
          let ends = add_from-Ends region_number 0 region m1 refl in
          let ends' : Ends 0 region r
              (add_from region_number 0 (make_region base size privileged unprivileged) m1) =
            subst (λ g. Ends 0 region r (add_from region_number 0 g m1)) (sym made) ends in
          record {
            outcome = rw e ends';
            sound = rw e (
                Ends-AllSound r region
                  (add_from region_number 0 (make_region base size privileged unprivileged) m1) all
                  (record { size = omega arith; ordered = ground arith }) ends');
          }
    ]
