-- ===== src/Area/Insert.antt =====
-- `memory_fragment_insert` keeps the fragments sorted by size.
use stm32_os.Common.{
  ℕ, ◌<◌, ◌^◌, ◌≡◌, ◌≢◌, true, false, some, [], ◌∷◌, arith, ltb, has, Distinct, length, refl,
  Bool-cases, inl, inr, ==-false, ==-true, ne_of_has, update, subst, sym, ap,
}
use stm32_os.Area.{Area, short, page_limit, insert_slot, link_fragment, memory_fragment_insert}
use stm32_os.Area.Walk.{behind_slot, insert_slot-before}
use stm32_os.Area.Fragments.{
  Frags, offsets, Run, RunOf, Run-ne_null, Holds, Run-frame, place, before, has-before,
  Distinct-place, Sorted-place,
}

-- The fragment is linked behind `q`, or further on.
Run-link :
    (fs fn : ℕ → ℕ) (o n q p : ℕ) (l : Frags)
    → Run fs fn p l
    → fn q ≡ p
    → fs o ≡ n
    → 0 < o
    → o < 2 ^ 16
    → Distinct (q ∷ offsets l)
    → has o (q ∷ offsets l) ≡ false
    → let x = before q n l in
      let fn' = update (update fn o (fn x)) x o in Run fs fn' (fn' q) (place o n l)
Run-link fs fn o n q p [] run at size pos lt d new = (ground arith, pos, lt, size, ground arith)
Run-link fs fn o n q p ((r, k) ∷ l) run at size pos lt d new = elim (Bool-cases (ltb n k)) [
  | inl e ↦
      let later = Run-link fs fn o n r (fn r) l run.4 refl size pos lt d.1 (ground arith) in
      let x = before r n l in
      let ne : q ≢ x = ground (arith, has-before r n l, ne_of_has x q (r ∷ offsets l)) in
      rw e (ground arith, run.1, run.2, run.3, later)
  | inr e ↦ rw e (
    ground arith,
    pos,
    lt,
    size,
    (
      ground arith,
      run.1,
      run.2,
      run.3,
      Run-frame fs fn fs (update (update fn o (fn q)) q o) (update (update fn o (fn q)) q o r) l
          (λ x i. refl) (λ x i. ground arith) (subst (λ y. Run fs fn y l) (ground arith) run.4),
    ),
  )
]

link-behind :
    (a : Area) (o x : ℕ)
    → o < 2 ^ 16
    → x ≢ 0
    → link_fragment o x a
      ≡ record a { next_fragment = update (update a.next_fragment o (a.next_fragment x)) x o }
unfolding link_fragment
link-behind a o x lt nx =
    let so : short o ≡ o = omega arith in
    rw (==-false x 0 nx) (
      ap
        (λ y. record a {
          next_fragment = update (update a.next_fragment o (a.next_fragment x)) x y;
        })
        so)

-- The fragment is linked by the list's head, or behind the fragment where it belongs.
link_fragment-place :
    (a : Area) (o n : ℕ) (l : Frags)
    → RunOf a l
    → a.fragment_size o ≡ n
    → 0 < o
    → o < 2 ^ 16
    → Distinct (offsets l)
    → has o (offsets l) ≡ false
    → RunOf (link_fragment o (before 0 n l) a) (place o n l)
unfolding link_fragment
link_fragment-place a o n [] run size pos lt d new = (ground arith, pos, lt, size, ground arith)
link_fragment-place a o n ((r, k) ∷ l) run size pos lt d new =
    let so : short o ≡ o = omega arith in
    elim (Bool-cases (ltb n k)) [
      | inl e ↦
          let x = before r n l in
          let later =
            Run-link a.fragment_size a.next_fragment o n r (a.next_fragment r) l run.4 refl size pos
              lt d (ground arith) in
          let in_list : has x (r ∷ offsets l) ≡ true = has-before r n l in
          let nx : x ≢ 0 =
            Run-ne_null a.fragment_size a.next_fragment a.max_fragment_offset x ((r, k) ∷ l) run
              in_list in
          let done : RunOf (link_fragment o x a) ((r, k) ∷ place o n l) =
            subst (λ b. RunOf b ((r, k) ∷ place o n l)) (sym (link-behind a o x lt nx))
              (run.0, run.1, run.2, run.3, later) in
          rw e done
      | inr e ↦
          let rest =
            Run-frame a.fragment_size a.next_fragment a.fragment_size
              (update a.next_fragment o a.max_fragment_offset) (a.next_fragment r) l (λ x i. refl)
              (λ x i. ground arith) run.4 in
          rw e (
            so,
            pos,
            lt,
            size,
            (
              ground arith,
              run.1,
              run.2,
              run.3,
              subst (λ y. Run a.fragment_size (update a.next_fragment o a.max_fragment_offset) y l)
                  (ground arith) rest,
            ),
          )
    ]

insert-first :
    (a : Area) (o n : ℕ)
    → 0 < o
    → 0 < n
    → a.max_fragment_offset ≡ 0
    → memory_fragment_insert o n a
      ≡ some (record a {
        next_fragment = update a.next_fragment o 0;
        fragment_size = update a.fragment_size o (short n);
        max_fragment_offset = short o;
      })
unfolding memory_fragment_insert
insert-first a o n po pn e =
    rw (==-false o 0 (ground arith), ==-false n 0 (ground arith), ==-true a.max_fragment_offset 0 e)

insert-linked :
    (a : Area) (o n q : ℕ)
    → 0 < o
    → 0 < n
    → a.max_fragment_offset ≢ 0
    → (t : ℕ × ℕ)
    → let fs = update a.fragment_size o (short n) in
      let fn = update a.next_fragment o 0 in
      insert_slot page_limit fs fn o 0 a.max_fragment_offset ≡ some t
      → behind_slot fs n t ≡ q
      → memory_fragment_insert o n a
        ≡ some (link_fragment o q (record a { next_fragment = fn; fragment_size = fs }))
unfolding memory_fragment_insert
insert-linked a o n q po pn some_left t walk e =
    rw
      (
        ==-false o 0 (ground arith),
        ==-false n 0 (ground arith),
        ==-false a.max_fragment_offset 0 some_left,
        walk,
      )
      (ap
        (λ y. some (
          link_fragment o y (record a {
            next_fragment = update a.next_fragment o 0;
            fragment_size = update a.fragment_size o (short n);
          })))
        e)

-- `memory_fragment_insert` of a fragment that is in no other's place, on a valid list of fewer than
-- `page_limit` fragments, returns and keeps the list valid: the fragment stands behind all larger
-- ones and before the others, so the list stays sorted by size, the largest first.
pub memory_fragment_insert-place :
    (o n : ℕ) (a : Area) (l : Frags)
    → Holds a l
    → 0 < o
    → o < 2 ^ 16
    → 0 < n
    → n < 2 ^ 16
    → has o (offsets l) ≡ false
    → length l < page_limit
    → (a' : Area) × (memory_fragment_insert o n a ≡ some a') × Holds a' (place o n l)
memory_fragment_insert-place o n a [] held po lt pn ln new fuel =
    let so : short o ≡ o = omega arith in
    (
      record a {
        next_fragment = update a.next_fragment o 0;
        fragment_size = update a.fragment_size o (short n);
        max_fragment_offset = short o;
      },
      insert-first a o n po pn held.run,
      record {
        run = (so, po, lt, ground arith, ground arith);
        distinct = (refl, tt);
        sorted = (omega arith, tt);
      },
    )
memory_fragment_insert-place o n a ((r, k) ∷ l) held po lt pn ln new fuel =
    let fs = update a.fragment_size o (short n) in
    let fn = update a.next_fragment o 0 in
    let a1 : Area = record a { next_fragment = fn; fragment_size = fs } in
    let size : fs o ≡ n = ground arith in
    let run : RunOf a1 ((r, k) ∷ l) =
      Run-frame a.fragment_size a.next_fragment fs fn a.max_fragment_offset ((r, k) ∷ l)
        (λ x i. ground arith) (λ x i. ground arith) held.run in
    let q = before 0 n ((r, k) ∷ l) in
    let (t, walk, e) =
      insert_slot-before page_limit fs fn o 0 n r k l (refl, run.1, run.2, run.3, run.4) size
        (omega arith) in
    let walk' = subst (λ y. insert_slot page_limit fs fn o 0 y ≡ some t) (sym run.0) walk in
    (
      link_fragment o q a1,
      insert-linked a o n q po pn (ground arith) t walk' e,
      record {
        run = link_fragment-place a1 o n ((r, k) ∷ l) run size po lt held.distinct new;
        distinct = Distinct-place o n ((r, k) ∷ l) held.distinct new;
        sorted = Sorted-place (2 ^ 16) o n ((r, k) ∷ l) (omega arith) held.sorted;
      },
    )
