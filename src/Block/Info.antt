-- ===== src/Block/Info.antt =====
-- The list of free MEMORY_BLOCK structures.
use stm32_os.Common.{
  ℕ, ◌≡◌, ◌≢◌, List, [], ◌∷◌, arith, ==-false, ==-true, erase, subst, subst₂, sym, ap, ◌∙◌, refl,
}
use stm32_os.Ring.{Links, unlink}
use stm32_os.Ring.Chain.{IsRing, IsRing-ne_null, IsRing-frame}
use stm32_os.Ring.Unlink.{head_without, unlink-IsRing, unlink_self, unlink_alone}
use stm32_os.Block.{Blocks, info_block_get}

abbrev pub FreeHolds : Blocks → List ℕ → Type 0
FreeHolds s xs = IsRing s.work s.free_info_block xs

-- What is left of the free structures when the first is taken: the last one is taken and stays.
abbrev pub still_free : List ℕ → List ℕ
still_free [] = []
still_free (x ∷ []) = x ∷ []
still_free (x ∷ y ∷ xs) = y ∷ xs

taken :
    (l : Links) (p x : ℕ) (xs : List ℕ)
    → IsRing l p (x ∷ xs)
    → IsRing (unlink p l) ((unlink p l).next p) (still_free (x ∷ xs))
taken l p x [] ring =
    let at : l.next p ≡ p = ground arith in
    let back : l.previous p ≡ p = ground arith in
    let kept = IsRing-frame l (unlink p l) p (x ∷ []) (λ y i. unlink_alone l p y at back) ring in
    subst (λ q. IsRing (unlink p l) q (x ∷ [])) (sym ((unlink_self l p).0 ∙ at)) kept
taken l p x (y ∷ xs) ring =
    let rest = unlink-IsRing l p p (x ∷ y ∷ xs) ring (ground arith) in
    let at : p ≡ x = ring.0 in
    let next : l.next p ≡ y = ap l.next at ∙ ring.3.0 in
    let ne : ¬ (l.next p ≡ p) = ground arith in
    let head : head_without p p l ≡ (unlink p l).next p =
      rw (==-true p p refl, ==-false (l.next p) p ne) (sym (unlink_self l p).0) in
    let others : erase p (x ∷ y ∷ xs) ≡ y ∷ xs = rw (==-true p x at) refl in
    subst₂ (λ q r. IsRing (unlink p l) q r) head others rest

get-step :
    (s : Blocks)
    → s.free_info_block ≢ 0
    → let l = unlink s.free_info_block s.work in
      info_block_get s
      ≡ (s.free_info_block, record s { work = l; free_info_block = l.next s.free_info_block })
unfolding info_block_get
get-step s nf = rw (==-false s.free_info_block 0 nf)

-- `info_block_get`, where a structure is free, returns the first free one, and the list of free
-- ones stays well formed. The structure leaves the list, unless it is the only one: then it is
-- returned and is in the list of free ones still.
pub info_block_get-first :
    (s : Blocks) (x : ℕ) (xs : List ℕ)
    → FreeHolds s (x ∷ xs)
    → ((info_block_get s).0 ≡ x) × FreeHolds (info_block_get s).1 (still_free (x ∷ xs))
info_block_get-first s x xs held =
    let nf =
      IsRing-ne_null s.work s.free_info_block s.free_info_block (x ∷ xs) held (ground arith) in
    subst (λ (t : ℕ × Blocks). (t.0 ≡ x) × FreeHolds t.1 (still_free (x ∷ xs)))
      (sym (get-step s nf)) (held.0, taken s.work s.free_info_block x xs held)
