-- ===== src/Cache/Holds.antt =====
-- The caches of a block, and how `reuse` and `carve` change them.
use stm32_os.Common.{
  ℕ, ◌+◌, ◌-◌, ◌^◌, ◌≤◌, ◌<◌, ◌≡◌, ◌≢◌, ◌⊎◌, refl, sym, ap, ◌∙◌, subst, List, [], ◌∷◌, ◌++◌, arith,
  ◌==◌, ==-true, ==-false, Bool-cases, inl, inr, false, has, update,
}
use stm32_os.Port.{add32, sub32}
use stm32_os.Ring.{insert_before}
use stm32_os.Ring.Chain.{IsRing}
use stm32_os.Ring.Insert.{insert_before-append, self_link-IsRing}
use stm32_os.Block.{Blocks}
use stm32_os.Cache.{mark, unmark, cache_size, interval, reuse, carve}
use stm32_os.Cache.Layout.{Laid, Laid-frame, Laid-snoc, Laid-below, Laid-inside}

-- Where the memory of a block that was never used begins.
abbrev pub unused : Blocks → ℕ → ℕ
unused s block = s.end block - s.available_storage block

-- A block whose caches, in the order of their addresses, are `xs`: they lie one behind the other in
-- the part of its memory that was used. Its own structure lies elsewhere.
pub record Holds (s : Blocks) (block : ℕ) (xs : List ℕ) : Type 0 where
  pub ring : IsRing s.location (s.slob block) xs
  pub laid : Laid s (s.start block) xs (unused s block)
  pub room : s.available_storage block ≤ s.end block
  pub small : s.end block < 2 ^ 32
  pub apart : (block < s.start block) ⊎ (s.end block ≤ block)
  pub first : 0 < s.start block

pub unmark-update :
    (sizes : ℕ → ℕ) (k x : ℕ) → unmark (update sizes k (mark (sizes k)) x) ≡ unmark (sizes x)
unmark-update sizes k x = elim (Bool-cases (k == x)) [
  | inl e ↦
      let at : k ≡ x = ground arith in
      rw e (subst (λ y. unmark (mark (sizes k)) ≡ unmark (sizes y)) at (omega arith))
  | inr e ↦ rw e refl
]

-- A cache of the block is marked.
pub Holds-reuse :
    (s : Blocks) (block k : ℕ) (xs : List ℕ) → Holds s block xs → Holds (reuse k s) block xs
unfolding reuse
Holds-reuse s block k xs h = record {
  ring = h.ring;
  laid =
      Laid-frame s (reuse k s) (s.start block) xs (unused s block)
        (λ x i. (refl, refl, unmark-update s.size k x)) h.laid;
  room = h.room;
  small = h.small;
  apart = h.apart;
  first = h.first;
}

-- A new cache at the end: the fields, and the ring.
carve-fields :
    (s : Blocks) (block size k : ℕ)
    → (let s' = carve block size k s in
        (s'.start ≡ update s.start k (add32 k cache_size))
        × (s'.end ≡ update s.end k (add32 (add32 k cache_size) size))
        × (s'.size ≡ update s.size k (mark size))
        × (s'.available_storage
            ≡ update s.available_storage block
                (sub32 (s.available_storage block) (size + cache_size + interval))))
unfolding carve
carve-fields s block size k = elim (Bool-cases (s.slob block == 0)) [
  | inl e ↦ rw e (refl, refl, refl, refl)
  | inr e ↦ rw e (refl, refl, refl, refl)
]

pub carve-size : (s : Blocks) (block size k : ℕ) → (carve block size k s).size k ≡ mark size
carve-size s block size k =
    let (start, end, sizes, available) = carve-fields s block size k in
    ap (λ (f : ℕ → ℕ). f k) sizes ∙ rw (==-true k k refl) refl

pub reuse-size : (s : Blocks) (k : ℕ) → (reuse k s).size k ≡ mark (s.size k)
unfolding reuse
reuse-size s k = rw (==-true k k refl) refl

carve-IsRing :
    (s : Blocks) (block size k : ℕ) (xs : List ℕ)
    → IsRing s.location (s.slob block) xs
    → has k xs ≡ false
    → k ≢ 0
    → (let s' = carve block size k s in IsRing s'.location (s'.slob block) (xs ++ k ∷ []))
unfolding carve
carve-IsRing s block size k [] ring out nk =
    rw (==-true (s.slob block) 0 ring, ==-true block block refl) (self_link-IsRing s.location k nk)
carve-IsRing s block size k (x ∷ r) ring out nk =
    let ne : s.slob block ≢ 0 = ground (arith, ring.0, ring.2) in
    let whole = subst (λ p. IsRing s.location (s.slob block) (p ∷ r)) (sym ring.0) ring in
    let appended =
      insert_before-append s.location (s.slob block) r k whole
        (subst (λ p. has k (p ∷ r) ≡ false) (sym ring.0) out) nk in
    rw (==-false (s.slob block) 0 ne) (
      subst
        (λ p. IsRing (insert_before (s.slob block) k s.location) (s.slob block) (p ∷ r ++ k ∷ []))
        ring.0 appended)

carve-kept :
    (s : Blocks) (block size k x : ℕ)
    → x ≢ k
    → (let s' = carve block size k s in
        (s'.start x ≡ s.start x) × (s'.end x ≡ s.end x) × (unmark (s'.size x) ≡ unmark (s.size x)))
carve-kept s block size k x ne =
    let (start, end, sizes, available) = carve-fields s block size k in
    (
      ap (λ (f : ℕ → ℕ). f x) start ∙ ground arith,
      ap (λ (f : ℕ → ℕ). f x) end ∙ ground arith,
      ap (λ (f : ℕ → ℕ). unmark (f x)) sizes ∙ ground arith,
    )

not_in :
    (s : Blocks) (block k : ℕ) (xs : List ℕ)
    → Holds s block xs
    → k ≡ unused s block + interval
    → has k xs ≡ false
not_in s block k xs h at = elim (Bool-cases (has k xs)) [
  | inl i ↦
      let (lo, hi) = Laid-inside s (s.start block) xs (unused s block) k h.laid i in
      absurd (omega arith)
  | inr o ↦ o
]

pub Holds-carve :
    (s : Blocks) (block size k : ℕ) (xs : List ℕ)
    → Holds s block xs
    → size < 2 ^ 31
    → size + (cache_size + interval) ≤ s.available_storage block
    → k ≡ unused s block + interval
    → Holds (carve block size k s) block (xs ++ k ∷ [])
Holds-carve s block size k xs h small fits at =
    let s' = carve block size k s in
    let (start, end, sizes, available) = carve-fields s block size k in
    let lo = Laid-below s (s.start block) xs (unused s block) h.laid in
    let room = h.room in
    let top = h.small in
    let pos = h.first in
    let apart = h.apart in
    let ne : k ≢ block = ground arith in
    let nk : k ≢ 0 = omega arith in
    let out = not_in s block k xs h at in
    let start_b : s'.start block ≡ s.start block =
      ap (λ (f : ℕ → ℕ). f block) start ∙ ground arith in
    let end_b : s'.end block ≡ s.end block = ap (λ (f : ℕ → ℕ). f block) end ∙ ground arith in
    let left : s'.available_storage block
        ≡ s.available_storage block - (size + (cache_size + interval)) =
      ap (λ (f : ℕ → ℕ). f block) available ∙ ground arith in
    let start_k : s'.start k ≡ k + cache_size = ap (λ (f : ℕ → ℕ). f k) start ∙ ground arith in
    let end_k : s'.end k ≡ k + cache_size + size = ap (λ (f : ℕ → ℕ). f k) end ∙ ground arith in
    let size_k : unmark (s'.size k) ≡ size =
      ap (λ (f : ℕ → ℕ). unmark (f k)) sizes ∙ ground arith in
    let kept =
      Laid-frame s s' (s.start block) xs (unused s block)
        (λ x i. carve-kept s block size k x (λ e. ground arith)) h.laid in
    record {
      ring = carve-IsRing s block size k xs h.ring out nk;
      laid =
          subst (λ p. Laid s' p (xs ++ k ∷ []) (unused s' block)) (sym start_b)
            (Laid-snoc s' (s.start block) xs (unused s block) k (unused s' block) kept (omega arith)
              start_k (omega arith) (omega arith));
      room = omega arith;
      small = omega arith;
      apart = elim apart [ inl below ↦ inl (omega arith) | inr above ↦ inr (omega arith) ];
      first = omega arith;
    }
