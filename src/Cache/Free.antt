-- ===== src/Cache/Free.antt =====
-- kmem_free of a cache of a block in which others are in use, and a request that gets it again.
use stm32_os.Common.{
  ℕ, ◌^◌, ◌≤◌, ◌<◌, ◌≡◌, ◌≢◌, refl, sym, ap, ◌∙◌, subst, List, [], ◌∷◌, some, arith, ◌==◌, ==-true,
  ==-false, Bool-cases, inl, inr, if◌then◌else◌, ◌&&◌, not, false, true, has, length, leb, update,
}
use stm32_os.Port.{sram_size, sub32}
use stm32_os.Ring.{unlink}
use stm32_os.Ring.Chain.{IsRing-ne_null}
use stm32_os.Block.{Blocks}
use stm32_os.Block.Sort.{in_use}
use stm32_os.Cache.{unmark, reuse, free_small, kmem_free, kmem_get_from_block}
use stm32_os.Cache.Layout.{Laid-frame, first_free}
use stm32_os.Cache.Holds.{unused, Holds, Holds-reuse}
use stm32_os.Cache.Get.{get-found, search_ring, head_ne_null}

-- A cache that is the only one in no use that is large enough is found.
first_free-update :
    (sizes : ℕ → ℕ) (size k v : ℕ) (xs : List ℕ)
    → has k xs ≡ true
    → has 0 xs ≡ false
    → first_free sizes size xs ≡ 0
    → (leb size v && not (in_use v)) ≡ true
    → first_free (update sizes k v) size xs ≡ k
first_free-update sizes size k v [] i pos none_free fits = ground arith
first_free-update sizes size k v (x ∷ xs) i pos none_free fits = elim (Bool-cases (k == x)) [
  | inl e ↦ let at : k ≡ x = ground arith in rw (e, fits) (sym at)
  | inr e ↦ elim (Bool-cases (leb size (sizes x) && not (in_use (sizes x)))) [
    | inl f ↦
        let z : x ≡ 0 = subst (λ b. (if b then x else first_free sizes size xs) ≡ 0) f none_free in
        absurd (ground arith)
    | inr f ↦
        let rest = subst (λ b. (if b then x else first_free sizes size xs) ≡ 0) f none_free in
        rw (e, f) (first_free-update sizes size k v xs (ground arith) (ground arith) rest fits)
  ]
]

-- What `kmem_free` leaves of a cache of less than 0x1000 bytes in a block that is still in use.
pub freed : (k : ℕ) → Blocks → Blocks
freed k s = record s {
  refered_number = update s.refered_number (s.owner k) (sub32 (s.refered_number (s.owner k)) 1);
  size = update s.size k (unmark (s.size k));
  work = unlink k s.work;
}

free-step :
    (k : ℕ) (s : Blocks)
    → k ≢ 0
    → in_use (s.size k) ≡ true
    → unmark (s.size k) < 0x1000
    → 1 < s.refered_number (s.owner k)
    → s.refered_number (s.owner k) < 2 ^ 32
    → kmem_free k s ≡ some (0, freed k s)
unfolding kmem_free free_small freed
free-step k s nk used small more most =
    let less : leb 0x1000 (unmark (s.size k)) ≡ false = ground arith in
    let left : sub32 (s.refered_number (s.owner k)) 1 ≢ 0 = omega arith in
    rw
      (
        ==-false k 0 nk,
        used,
        ==-true k k refl,
        less,
        ==-true (s.owner k) (s.owner k) refl,
        ==-false (sub32 (s.refered_number (s.owner k)) 1) 0 left,
      )
      refl

unmark-freed :
    (sizes : ℕ → ℕ) (k x : ℕ) → unmark (update sizes k (unmark (sizes k)) x) ≡ unmark (sizes x)
unmark-freed sizes k x = elim (Bool-cases (k == x)) [
  | inl e ↦
      let at : k ≡ x = ground arith in
      rw e (subst (λ y. unmark (unmark (sizes k)) ≡ unmark (sizes y)) at (omega arith))
  | inr e ↦ rw e refl
]

no_null : (s : Blocks) (block : ℕ) (xs : List ℕ) → Holds s block xs → has 0 xs ≡ false
no_null s block [] h = refl
no_null s block (x ∷ r) h = h.ring.2

get_listed :
    (s : Blocks) (block size k : ℕ) (xs : List ℕ)
    → Holds s block xs
    → length xs ≤ sram_size
    → k ≢ 0
    → first_free s.size size xs ≡ k
    → kmem_get_from_block block size s ≡ some (k, reuse k s)
get_listed s block size k [] h few nk found = absurd (nk (sym found))
get_listed s block size k (x ∷ r) h few nk found =
    get-found s block size k (head_ne_null s block x r h) nk
      (search_ring s block size x r h few ∙ ap some found)

-- Freeing changes no more of the layout than a mark.
Holds-freed :
    (s : Blocks) (block k : ℕ) (xs : List ℕ) → Holds s block xs → Holds (freed k s) block xs
unfolding freed
Holds-freed s block k xs h = record {
  ring = h.ring;
  laid =
      Laid-frame s (freed k s) (s.start block) xs (unused s block)
        (λ x i. (refl, refl, unmark-freed s.size k x)) h.laid;
  room = h.room;
  small = h.small;
  apart = h.apart;
  first = h.first;
}

-- The cache is free and then given again.
pub record Again (s : Blocks) (block k size : ℕ) (xs : List ℕ) : Type 0 where
  pub between : Blocks
  pub after : Blocks
  pub freeing : kmem_free k s ≡ some (0, between)
  pub getting : kmem_get_from_block block size between ≡ some (k, after)
  pub holds : Holds after block xs
  pub size_back : after.size k ≡ s.size k
  pub count_back : after.refered_number block ≡ s.refered_number block

freed-sizes : (k : ℕ) (s : Blocks) → (freed k s).size ≡ update s.size k (unmark (s.size k))
unfolding freed
freed-sizes k s = refl

freed-same :
    (k : ℕ) (s : Blocks)
    → ((freed k s).slob ≡ s.slob)
      × ((freed k s).owner ≡ s.owner)
      × ((freed k s).refered_number
          ≡ update s.refered_number (s.owner k) (sub32 (s.refered_number (s.owner k)) 1))
unfolding freed
freed-same k s = (refl, refl, refl)

reuse-back :
    (k : ℕ) (s : Blocks)
    → in_use (s.size k) ≡ true
    → s.size k < 2 ^ 32
    → 1 < s.refered_number (s.owner k)
    → s.refered_number (s.owner k) < 2 ^ 32
    → (let s' = reuse k (freed k s) in
        (s'.size k ≡ s.size k) × (s'.refered_number (s.owner k) ≡ s.refered_number (s.owner k)))
unfolding reuse freed
reuse-back k s used word more most = ground arith

-- A cache of a block, in use, of less than 0x1000 bytes, where another cache of the block is in
-- use: kmem_free gives it back, and then a request for no more bytes, for which none of the others
-- is free, gets the same cache. Its size, the count of the block and the layout are then as they
-- were.
pub kmem_free-Again :
    (s : Blocks) (block k size : ℕ) (xs : List ℕ)
    → Holds s block xs
    → length xs ≤ sram_size
    → has k xs ≡ true
    → s.owner k ≡ block
    → in_use (s.size k) ≡ true
    → s.size k < 2 ^ 32
    → unmark (s.size k) < 0x1000
    → size ≤ unmark (s.size k)
    → 1 < s.refered_number block
    → s.refered_number block < 2 ^ 32
    → first_free s.size size xs ≡ 0
    → Again s block k size xs
kmem_free-Again s block k size xs h few i own used word small le more most none_free =
    let nk = IsRing-ne_null s.location (s.slob block) k xs h.ring i in
    let more' : 1 < s.refered_number (s.owner k) =
      subst (λ b. 1 < s.refered_number b) (sym own) more in
    let most' : s.refered_number (s.owner k) < 2 ^ 32 =
      subst (λ b. s.refered_number b < 2 ^ 32) (sym own) most in
    let h' = Holds-freed s block k xs h in
    let (size_back, count_back) = reuse-back k s used word more' most' in
    let found : first_free (freed k s).size size xs ≡ k =
      ap (λ f. first_free f size xs) (freed-sizes k s)
      ∙ first_free-update s.size size k (unmark (s.size k)) xs i (no_null s block xs h) none_free
          (ground arith) in
    record {
      between = freed k s;
      after = reuse k (freed k s);
      freeing = free-step k s nk used small more' most';
      getting = get_listed (freed k s) block size k xs h' few nk found;
      holds = Holds-reuse (freed k s) block k xs h';
      size_back = size_back;
      count_back =
          subst (λ b. (reuse k (freed k s)).refered_number b ≡ s.refered_number b) own count_back;
    }
