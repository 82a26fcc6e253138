-- ===== src/Cache/Get.antt =====
-- kmem_get_from_block: a cache of a block is used again, or a new one is carved behind the others.
use stm32_os.Common.{
  ℕ, ◌+◌, ◌^◌, ◌≤◌, ◌<◌, ◌≡◌, ◌≢◌, refl, sym, ap, ◌∙◌, subst, List, [], ◌∷◌, ◌++◌, some, arith,
  ◌==◌, ==-true, ==-false, Bool, Bool-cases, inl, inr, if◌then◌else◌, true, length, leb,
}
use stm32_os.Port.{sram_size, add32, sub32}
use stm32_os.Block.{Blocks}
use stm32_os.Cache.{
  mark, cache_size, interval, first_fit, reuse, carve, get_new, kmem_get_from_block,
}
use stm32_os.Cache.Layout.{first_free, first_fit-free}
use stm32_os.Cache.Holds.{unused, Holds, reuse-size, carve-size, Holds-reuse, Holds-carve}

-- What a request for `size` bytes gets, and the caches that the block has then.
abbrev pub given : Blocks → (block size : ℕ) → List ℕ → ℕ
given s block size xs =
    if first_free s.size size xs == 0 then unused s block + interval else first_free s.size size xs

abbrev pub caches : Blocks → (block size : ℕ) → List ℕ → List ℕ
caches s block size xs =
    if first_free s.size size xs == 0 then xs ++ (unused s block + interval) ∷ [] else xs

abbrev pub given_size : Blocks → (size : ℕ) → List ℕ → ℕ
given_size s size xs =
    if first_free s.size size xs == 0 then size else s.size (first_free s.size size xs)

-- The cache that is got, and the block afterwards.
pub record Gets (s : Blocks) (block size : ℕ) (xs : List ℕ) : Type 0 where
  pub after : Blocks
  pub result : kmem_get_from_block block size s ≡ some (given s block size xs, after)
  pub holds : Holds after block (caches s block size xs)
  pub marked : after.size (given s block size xs) ≡ mark (given_size s size xs)

-- The calls, in the two cases.
pub get-found :
    (s : Blocks) (block size f : ℕ)
    → s.slob block ≢ 0
    → f ≢ 0
    → (let slob = s.slob block in
        first_fit sram_size s.size s.location.next size slob slob ≡ some f)
    → kmem_get_from_block block size s ≡ some (f, reuse f s)
unfolding kmem_get_from_block
get-found s block size f ne nf found =
    rw (==-false (s.slob block) 0 ne, found, ==-false f 0 nf) refl

get_new-carve :
    (s : Blocks) (block size k : ℕ) (xs : List ℕ)
    → Holds s block xs
    → size < 2 ^ 31
    → size + (cache_size + interval) ≤ s.available_storage block
    → k ≡ unused s block + interval
    → get_new block size s ≡ some (k, carve block size k s)
unfolding get_new
get_new-carve s block size k xs h small fits at =
    let top = h.small in
    let room = h.room in
    let place : add32 (sub32 (s.end block) (s.available_storage block)) interval ≡ k =
      omega arith in
    let enough : leb (add32 size (cache_size + interval)) (s.available_storage block) ≡ true =
      ground arith in
    rw (enough, place) refl

pub search_ring :
    (s : Blocks) (block size x : ℕ) (r : List ℕ)
    → Holds s block (x ∷ r)
    → length (x ∷ r) ≤ sram_size
    → (let slob = s.slob block in
        first_fit sram_size s.size s.location.next size slob slob
        ≡ some (first_free s.size size (x ∷ r)))
search_ring s block size x r h few =
    let (head, distinct, no_null, chain) = h.ring in
    subst
      (λ p.
        first_fit sram_size s.size s.location.next size p p ≡ some (first_free s.size size (x ∷ r)))
      (sym head) (first_fit-free sram_size s.size s.location size x x r chain distinct.0 few)

pub head_ne_null :
    (s : Blocks) (block x : ℕ) (r : List ℕ) → Holds s block (x ∷ r) → s.slob block ≢ 0
head_ne_null s block x r h = ground (arith, h.ring.0, h.ring.2)

get-none :
    (s : Blocks) (block size : ℕ) (xs : List ℕ)
    → Holds s block xs
    → length xs ≤ sram_size
    → first_free s.size size xs ≡ 0
    → kmem_get_from_block block size s ≡ get_new block size s
unfolding kmem_get_from_block
get-none s block size [] h few none_free = rw (==-true (s.slob block) 0 h.ring) refl
get-none s block size (x ∷ r) h few none_free =
    let found = search_ring s block size x r h few ∙ ap some none_free in
    rw (==-false (s.slob block) 0 (head_ne_null s block x r h), found) refl

Gets-found :
    (s : Blocks) (block size : ℕ) (xs : List ℕ)
    → Holds s block xs
    → length xs ≤ sram_size
    → first_free s.size size xs ≢ 0
    → Gets s block size xs
Gets-found s block size [] h few some_free = absurd (some_free refl)
Gets-found s block size (x ∷ r) h few some_free =
    let xs = x ∷ r in
    let f = first_free s.size size xs in
    let e = ==-false f 0 some_free in
    record {
      after = reuse f s;
      result =
          get-found s block size f (head_ne_null s block x r h) some_free
            (search_ring s block size x r h few)
          ∙ ap (λ (b : Bool). some (if b then unused s block + interval else f, reuse f s)) (sym e);
      holds =
          subst
            (λ (b : Bool).
              Holds (reuse f s) block (if b then xs ++ (unused s block + interval) ∷ [] else xs))
            (sym e) (Holds-reuse s block f xs h);
      marked =
          subst
            (λ (b : Bool).
              (reuse f s).size (if b then unused s block + interval else f)
              ≡ mark (if b then size else s.size f))
            (sym e) (reuse-size s f);
    }

Gets-new :
    (s : Blocks) (block size : ℕ) (xs : List ℕ)
    → Holds s block xs
    → length xs ≤ sram_size
    → size < 2 ^ 31
    → size + (cache_size + interval) ≤ s.available_storage block
    → first_free s.size size xs ≡ 0
    → Gets s block size xs
Gets-new s block size xs h few small fits none_free =
    let k = unused s block + interval in
    let f = first_free s.size size xs in
    let e = ==-true f 0 none_free in
    record {
      after = carve block size k s;
      result =
          get-none s block size xs h few none_free
          ∙ get_new-carve s block size k xs h small fits refl
          ∙ ap (λ (b : Bool). some (if b then k else f, carve block size k s)) (sym e);
      holds =
          subst (λ (b : Bool). Holds (carve block size k s) block (if b then xs ++ k ∷ [] else xs))
            (sym e) (Holds-carve s block size k xs h small fits refl);
      marked =
          subst
            (λ (b : Bool).
              (carve block size k s).size (if b then k else f)
              ≡ mark (if b then size else s.size f))
            (sym e) (carve-size s block size k);
    }

-- A request for less than 2 ^ 31 bytes from a block whose caches lie one behind the other, and that
-- has the room for one more: it is always served. The first cache that is large enough and in no
-- use is given, or, where there is none, a new one behind the others; it is marked as used; and the
-- caches still lie one behind the other, inside the used part of the block, so that no two overlap.
pub kmem_get_from_block-Holds :
    (s : Blocks) (block size : ℕ) (xs : List ℕ)
    → Holds s block xs
    → length xs ≤ sram_size
    → size < 2 ^ 31
    → size + (cache_size + interval) ≤ s.available_storage block
    → Gets s block size xs
kmem_get_from_block-Holds s block size xs h few small fits =
    elim (Bool-cases (first_free s.size size xs == 0)) [
      | inl e ↦ Gets-new s block size xs h few small fits (ground arith)
      | inr e ↦ Gets-found s block size xs h few (ground arith)
    ]
