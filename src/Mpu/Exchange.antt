-- ===== src/Mpu/Exchange.antt =====
-- mpu_exchange puts the regions in force: what the registers then grant.
use stm32_os.Common.{
  ℕ, zero, suc, ◌+◌, ◌-◌, ◌%◌, ◌≤◌, ◌<◌, ◌≡◌, ◌≢◌, refl, sym, ◌∙◌, subst, subst₂, arith, ◌==◌,
  ==-true, ==-false, Bool, Bool-cases, inl, inr, if◌then◌else◌, true, false, leb, ltb,
}
use stm32_os.Mpu.{
  region_number, rank, Region, Regions, Mpu, load_region, load_from, invalidate, mpu_exchange,
}
use stm32_os.Mpu.Rasr.{rasr_value, Grants, InForce, IsSound, Grants-value}

load_region-on :
    (n : ℕ) (r : Region) (m : Mpu)
    → r.valid ≡ true
    → leb (rank r.unprivileged) (rank r.privileged) ≡ true
    → (let m' = load_region n r m in
        (m'.rbar n ≡ r.base_address - r.base_address % 0x20)
        × (m'.rasr n ≡ rasr_value r.region_size r.privileged r.unprivileged))
unfolding load_region rasr_value
load_region-on n r m valid allowed = rw (valid, allowed, ==-true n n refl) (refl, refl)

load_region-off : (n : ℕ) (r : Region) (m : Mpu) → r.valid ≡ false → (load_region n r m).rasr n ≡ 0
unfolding load_region
load_region-off n r m invalid = rw (invalid, ==-true n n refl) refl

-- Loading one region changes only its registers.
load_region-InForce :
    (n : ℕ) (r : Region) (m : Mpu)
    → IsSound r
    → (let m' = load_region n r m in InForce r (m'.rbar n) (m'.rasr n))
load_region-InForce n r m sound =
    let m' = load_region n r m in
    let v = rasr_value r.region_size r.privileged r.unprivileged in
    let force : Bool → Type 0 =
      λ on. if on then Grants r (m'.rbar n) (m'.rasr n) else m'.rasr n ≡ 0 in
    let le = sound.ordered in
    elim (Bool-cases r.valid) [
      | inl e ↦
          let (rbar, rasr) = load_region-on n r m e (ground arith) in
          subst force (sym e)
            (subst (Grants r (m'.rbar n)) (sym rasr) (Grants-value r (m'.rbar n) sound rbar))
      | inr e ↦ subst force (sym e) (load_region-off n r m e)
    ]

load_region-other :
    (n : ℕ) (r : Region) (m : Mpu) (j : ℕ)
    → j ≢ n
    → (let m' = load_region n r m in (m'.rbar j ≡ m.rbar j) × (m'.rasr j ≡ m.rasr j))
unfolding load_region
load_region-other n r m j ne =
    let apart = ==-false n j (λ e. ne (sym e)) in
    elim (Bool-cases r.valid) [
      | inl e ↦ elim (Bool-cases (leb (rank r.unprivileged) (rank r.privileged))) [
        | inl e' ↦ rw (e, e', apart) (refl, refl)
        | inr e' ↦ rw (e, e', apart) (refl, refl)
      ]
      | inr e ↦ rw (e, apart) (refl, refl)
    ]

load_region-banks :
    (n : ℕ) (r : Region) (m : Mpu)
    → (let m' = load_region n r m in
        (m'.current_regions ≡ m.current_regions) × (m'.next_regions ≡ m.next_regions))
unfolding load_region
load_region-banks n r m = elim (Bool-cases r.valid) [
  | inl e ↦ elim (Bool-cases (leb (rank r.unprivileged) (rank r.privileged))) [
    | inl e' ↦ rw (e, e') (refl, refl)
    | inr e' ↦ rw (e, e') (refl, refl)
  ]
  | inr e ↦ rw e (refl, refl)
]

load_from-other :
    (count n : ℕ) (r : Regions) (m : Mpu) (j : ℕ)
    → j < n
    → (let m' = load_from count n r m in (m'.rbar j ≡ m.rbar j) × (m'.rasr j ≡ m.rasr j))
unfolding load_from
load_from-other zero n r m j lt = (refl, refl)
load_from-other (suc count) n r m j lt =
    let m1 = load_region n (r n) m in
    let (a, b) = load_from-other count (n + 1) r m1 j (omega arith) in
    let (c, d) = load_region-other n (r n) m j (omega arith) in (a ∙ c, b ∙ d)

load_from-InForce :
    (count n : ℕ) (r : Regions) (m : Mpu) (j : ℕ)
    → IsSound (r j)
    → n ≤ j
    → j < n + count
    → (let m' = load_from count n r m in InForce (r j) (m'.rbar j) (m'.rasr j))
unfolding load_from
load_from-InForce zero n r m j sound ge lt = ground arith
load_from-InForce (suc count) n r m j sound ge lt =
    let m1 = load_region n (r n) m in
    elim (Bool-cases (n == j)) [
      | inl e ↦
          let at : n ≡ j = ground arith in
          let (a, b) = load_from-other count (n + 1) r m1 n (omega arith) in
          let m' = load_from count (n + 1) r m1 in
          let here : InForce (r n) (m'.rbar n) (m'.rasr n) =
            subst₂ (InForce (r n)) (sym a) (sym b)
              (load_region-InForce n (r n) m (subst (λ k. IsSound (r k)) (sym at) sound)) in
          subst (λ k. InForce (r k) (m'.rbar k) (m'.rasr k)) at here
      | inr e ↦ load_from-InForce count (n + 1) r m1 j sound (ground arith) (omega arith)
    ]

load_from-banks :
    (count n : ℕ) (r : Regions) (m : Mpu)
    → (let m' = load_from count n r m in
        (m'.current_regions ≡ m.current_regions) × (m'.next_regions ≡ m.next_regions))
unfolding load_from
load_from-banks zero n r m = (refl, refl)
load_from-banks (suc count) n r m =
    let (a, b) = load_from-banks count (n + 1) r (load_region n (r n) m) in
    let (c, d) = load_region-banks n (r n) m in (a ∙ c, b ∙ d)

-- With sound regions in the bank that was filled, after mpu_exchange: the unit is on; each region
-- of that bank that is valid is in force, at its address and with its size, and grants what it was
-- made for; the others are off; this bank is now the one in force; and in the bank that is filled
-- next no region is valid.
pub mpu_exchange-InForce :
    (m : Mpu)
    → ((j : ℕ) → j < region_number → IsSound (m.next_regions j))
    → (let m' = mpu_exchange m in
        (m'.ctrl ≡ 5)
        × ((j : ℕ) → j < region_number → InForce (m.next_regions j) (m'.rbar j) (m'.rasr j))
        × (m'.current_regions ≡ m.next_regions)
        × ((j : ℕ) → j < region_number → (m'.next_regions j).valid ≡ false))
unfolding mpu_exchange invalidate
mpu_exchange-InForce m sound =
    let m0 : Mpu = record m { ctrl = 0 } in
    (
      refl,
      λ j lt.
          load_from-InForce region_number 0 m.next_regions m0 j (sound j lt) (omega arith)
            (omega arith),
      (load_from-banks region_number 0 m.next_regions m0).1,
      λ j lt. let small : ltb j region_number ≡ true = ground arith in rw small refl,
    )
