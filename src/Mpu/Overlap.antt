-- ===== src/Mpu/Overlap.antt =====
-- The two loops of mpu_add: which regions clash.
use stm32_os.Common.{
  ℕ, zero, suc, ◌+◌, ◌≤◌, ◌<◌, ◌≡◌, ◌≢◌, arith, ◌==◌, leb, ◌&&◌, not, subst, Bool-cases, inl, inr,
  true, false,
}
use stm32_os.Mpu.{Regions, hits, overlapping}

-- The base address of region `check` lies in region `test`, another one.
pub record Hit (r : Regions) (test check : ℕ) : Type 0 where
  pub other : check ≢ test
  pub from : (r test).base_address ≤ (r check).base_address
  pub to : (r check).base_address ≤ (r test).end_address

record HitIn (r : Regions) (low high check : ℕ) : Type 0 where
  test : ℕ
  from : low ≤ test
  below : test < high
  hit : Hit r test check

hits-Hit :
    (count n check : ℕ) (r : Regions) → hits count n check r ≡ true → HitIn r n (n + count) check
unfolding hits
hits-Hit zero n check r e = ground arith
hits-Hit (suc count) n check r e =
    let now =
      not (check == n)
      && leb (r n).base_address (r check).base_address
      && leb (r check).base_address (r n).end_address in
    elim (Bool-cases now) [
      | inl here ↦ record {
        test = n;
        from = omega arith;
        below = omega arith;
        hit = record { other = ground arith; from = ground arith; to = ground arith };
      }
      | inr later ↦
          let rest = hits-Hit count (n + 1) check r (ground arith) in
          let from = rest.from in
          let below = rest.below in
          record { test = rest.test; from = omega arith; below = omega arith; hit = rest.hit }
    ]

hits-none :
    (count n check test : ℕ) (r : Regions)
    → hits count n check r ≡ false
    → n ≤ test
    → test < n + count
    → ¬ Hit r test check
unfolding hits
hits-none zero n check test r e low high hit = omega arith
hits-none (suc count) n check test r e low high hit =
    let other = hit.other in
    let from = hit.from in
    let to = hit.to in
    elim (Bool-cases (n == test)) [
      | inl here ↦ ground arith
      | inr later ↦
          hits-none count (n + 1) check test r (ground arith) (ground arith) (omega arith) hit
    ]

-- Two of the regions up to `number` clash.
pub record Clash (r : Regions) (number : ℕ) : Type 0 where
  pub test : ℕ
  pub check : ℕ
  pub test_below : test ≤ number
  pub check_below : check ≤ number
  pub hit : Hit r test check

pub overlapping-Clash :
    (count check number : ℕ) (r : Regions)
    → check + count ≤ number + 1
    → overlapping count check number r ≡ true
    → Clash r number
unfolding overlapping
overlapping-Clash zero check number r small e = ground arith
overlapping-Clash (suc count) check number r small e =
    elim (Bool-cases (hits (number + 1) 0 check r)) [
      | inl here ↦
          let found = hits-Hit (number + 1) 0 check r here in
          let below = found.below in
          record {
            test = found.test;
            check = check;
            test_below = omega arith;
            check_below = omega arith;
            hit = found.hit;
          }
      | inr later ↦ overlapping-Clash count (check + 1) number r (omega arith) (ground arith)
    ]

pub overlapping-none :
    (count start number test check : ℕ) (r : Regions)
    → overlapping count start number r ≡ false
    → test ≤ number
    → start ≤ check
    → check < start + count
    → ¬ Hit r test check
unfolding overlapping
overlapping-none zero start number test check r e below low high hit = omega arith
overlapping-none (suc count) start number test check r e below low high hit =
    elim (Bool-cases (start == check)) [
      | inl here ↦
          let at : start ≡ check = ground arith in
          let none : hits (number + 1) 0 start r ≡ false = ground arith in
          hits-none (number + 1) 0 check test r
            (subst (λ c. hits (number + 1) 0 c r ≡ false) at none) (omega arith) (omega arith) hit
      | inr later ↦
          overlapping-none count (start + 1) number test check r (ground arith) below (ground arith)
            (omega arith) hit
    ]
