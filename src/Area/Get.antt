-- ===== src/Area/Get.antt =====
-- `memory_fragment_get` finds the best fit.
use stm32_os.Common.{
  ℕ, ◌≤◌, ◌<◌, ◌^◌, ◌≡◌, ◌≢◌, true, false, some, [], ◌∷◌, arith, ◌==◌, ltb, if◌then◌else◌, Distinct,
  length, refl, Bool-cases, inl, inr, ==-false, ==-true, ne_of_has, update, subst, sym, ap, ap₂,
  subst₂, ◌∙◌,
}
use stm32_os.Area.{Area, page_limit, get_slot, take_fragment, memory_fragment_get}
use stm32_os.Area.Walk.{target_of, behind_of, get_slot-best}
use stm32_os.Area.Fragments.{Frags, offsets, Run, RunOf, Holds, Run-frame, Run-ne_null}
use stm32_os.Area.Fit.{
  size_of, discard, Best, best, before_best, without, has-best, has-before_best, without-discard,
  best-least, Distinct-discard, Sorted-discard, size_of-le,
}

-- The best fragment leaves the list behind `z`.
Run-without :
    (fs fn : ℕ → ℕ) (n z q s : ℕ) (l : Frags)
    → Run fs fn q ((q, s) ∷ l)
    → fn z ≡ q
    → Distinct (z ∷ q ∷ offsets l)
    → let fn' = update fn (before_best z q n l) (fn (best q n l)) in
      Run fs fn' (fn' z) (without q s n l)
Run-without fs fn n z q s [] run at d = ground arith
Run-without fs fn n z q s ((p, k) ∷ l) run at d = elim (Bool-cases (ltb k n)) [
  | inl e ↦
      let (_, pos, lt, size, (next, pos', lt', size', rest)) = run in
      let fn' = update fn z (fn q) in
      let rest' = Run-frame fs fn fs fn' (fn p) l (λ x i. refl) (λ x i. ground arith) rest in
      let done : Run fs fn' (fn' z) ((p, k) ∷ l) =
        (ground arith, pos', lt', size', subst (λ y. Run fs fn' y l) (ground arith) rest') in
      rw e done
  | inr e ↦
      let (_, pos, lt, size, (next, pos', lt', size', more)) = run in
      let later = Run-without fs fn n q p k l (refl, pos', lt', size', more) next d.1 in
      let x = before_best q p n l in
      let ne : x ≢ z = ne_of_has x z (q ∷ p ∷ offsets l) (has-before_best q p n l) d.0 in
      rw e (ground arith, pos, lt, size, later)
]

-- The target `t` behind `p` leaves the list.
abbrev cut : (p t : ℕ) → Area → Area
cut p t a =
    if p == 0
    then record a { max_fragment_offset = a.next_fragment t }
    else record a { next_fragment = update a.next_fragment p (a.next_fragment t) }

take_fragment-cut :
    (n p t : ℕ) (a : Area) (slot : ℕ × ℕ × ℕ)
    → target_of a.fragment_size n slot ≡ t
    → behind_of a.fragment_size n slot ≡ p
    → take_fragment n slot.0 slot.1 slot.2 a ≡ (t, cut p t a)
unfolding take_fragment
take_fragment-cut n p t a slot e f =
    rw (e, f) (elim (Bool-cases (p == 0)) [ inl g ↦ rw g refl | inr g ↦ rw g refl ])

cut-behind :
    (p t : ℕ) (a : Area)
    → p ≢ 0
    → cut p t a ≡ record a { next_fragment = update a.next_fragment p (a.next_fragment t) }
cut-behind p t a np = rw (==-false p 0 np) refl

cut-Run :
    (a : Area) (n q s : ℕ) (l : Frags)
    → RunOf a ((q, s) ∷ l)
    → Distinct (q ∷ offsets l)
    → RunOf (cut (before_best 0 q n l) (best q n l) a) (without q s n l)
cut-Run a n q s [] run d = run.4
cut-Run a n q s ((p, k) ∷ l) run d = elim (Bool-cases (ltb k n)) [
  | inl e ↦ rw e run.4
  | inr e ↦
      let x = before_best q p n l in
      let nx : x ≢ 0 =
        Run-ne_null a.fragment_size a.next_fragment a.max_fragment_offset x ((q, s) ∷ (p, k) ∷ l)
          run (has-before_best q p n l) in
      let (next, pos', lt', size', more) = run.4 in
      let later =
        Run-without a.fragment_size a.next_fragment n q p k l (refl, pos', lt', size', more) next
          d in
      let done : RunOf (cut x (best p n l) a) ((q, s) ∷ without p k n l) =
        subst (λ b. RunOf b ((q, s) ∷ without p k n l)) (sym (cut-behind x (best p n l) a nx))
          (run.0, run.1, run.2, run.3, later) in
      rw e done
]

get-empty : (n : ℕ) (a : Area) → a.max_fragment_offset ≡ 0 → memory_fragment_get n a ≡ some (0, a)
unfolding memory_fragment_get
get-empty n a e = rw (==-true a.max_fragment_offset 0 e) refl

discard-null : (fs fn : ℕ → ℕ) (p : ℕ) (l : Frags) → Run fs fn p l → discard 0 l ≡ l
discard-null fs fn p [] run = refl
discard-null fs fn p ((o, n) ∷ l) run =
    rw (==-false 0 o (ground arith)) (ap (λ r. (o, n) ∷ r) (discard-null fs fn (fn o) l run.4))

get-nothing :
    (n : ℕ) (a : Area) (q s : ℕ) (l : Frags)
    → RunOf a ((q, s) ∷ l)
    → s < n
    → memory_fragment_get n a ≡ some (0, a)
unfolding memory_fragment_get
get-nothing n a q s l run lt =
    let size : a.fragment_size a.max_fragment_offset ≡ s = ap a.fragment_size run.0 ∙ run.3 in
    let small : ltb (a.fragment_size a.max_fragment_offset) n ≡ true = ground arith in
    rw (==-false a.max_fragment_offset 0 (ground arith), ==-false n 0 (ground arith), small) refl

get-cut :
    (n : ℕ) (a : Area) (q s : ℕ) (l : Frags)
    → RunOf a ((q, s) ∷ l)
    → 0 < n
    → n ≤ s
    → length l < page_limit
    → memory_fragment_get n a ≡ some (best q n l, cut (before_best 0 q n l) (best q n l) a)
unfolding memory_fragment_get
get-cut n a q s [] run pos le fuel =
    let size : a.fragment_size a.max_fragment_offset ≡ s = ap a.fragment_size run.0 ∙ run.3 in
    let large : ltb (a.fragment_size a.max_fragment_offset) n ≡ false = ground arith in
    let next : a.next_fragment a.max_fragment_offset ≡ 0 = ap a.next_fragment run.0 ∙ run.4 in
    rw
      (
        ==-false a.max_fragment_offset 0 (ground arith),
        ==-false n 0 (ground arith),
        large,
        ==-true (a.next_fragment a.max_fragment_offset) 0 next,
      )
      (ap₂ (λ x y. some (x, record a { max_fragment_offset = y })) run.0 (sym run.4))
get-cut n a q s ((p, k) ∷ l) run pos le fuel =
    let (_, _, _, _, (next, pos', lt', size', more)) = run in
    let (slot, walk, e, f) =
      get_slot-best page_limit a.fragment_size a.next_fragment n 0 q p k l
        (refl, pos', lt', size', more) (omega arith) in
    let size : a.fragment_size a.max_fragment_offset ≡ s = ap a.fragment_size run.0 ∙ run.3 in
    let large : ltb (a.fragment_size a.max_fragment_offset) n ≡ false = ground arith in
    let second : a.next_fragment a.max_fragment_offset ≡ p = ap a.next_fragment run.0 ∙ next in
    let walk' =
      subst₂ (λ y w. get_slot page_limit a.fragment_size a.next_fragment n 0 y w ≡ some slot)
        (sym run.0) (sym second) walk in
    rw
      (
        ==-false a.max_fragment_offset 0 (ground arith),
        ==-false n 0 (ground arith),
        large,
        ==-false (a.next_fragment a.max_fragment_offset) 0 (ground arith),
        walk',
      )
      (ap some
        (take_fragment-cut n (before_best 0 q n ((p, k) ∷ l)) (best q n ((p, k) ∷ l)) a slot e f))

-- What a search for `n` bytes finds: NULL where every fragment is smaller, else a fragment that is
-- large enough, and no fragment that is large enough is smaller than it.
abbrev pub Found : (n t : ℕ) → Frags → Type 0
Found n t l = if t == 0 then ((x : ℕ) → size_of x l < n) else Best n t l

-- `memory_fragment_get` of a size that is not 0, on a valid list of at most `page_limit`
-- fragments, returns the best fit: the smallest fragment that is large enough, or NULL where none
-- is. That fragment leaves the list, the others stay, and the list stays valid.
pub memory_fragment_get-best :
    (n : ℕ) (a : Area) (l : Frags)
    → Holds a l
    → 0 < n
    → length l ≤ page_limit
    → (t : ℕ) × (a' : Area) × (memory_fragment_get n a ≡ some (t, a'))
      × Holds a' (discard t l)
      × Found n t l
memory_fragment_get-best n a [] held pos fuel = (0, a, get-empty n a held.run, held, λ x. pos)
memory_fragment_get-best n a ((q, s) ∷ l) held pos fuel =
    let run = held.run in
    let sorted = held.sorted in
    let d = held.distinct in
    elim (Bool-cases (ltb s n)) [
      | inl e ↦ (
        0,
        a,
        get-nothing n a q s l run (ground arith),
        subst (Holds a)
            (sym
              (discard-null a.fragment_size a.next_fragment a.max_fragment_offset ((q, s) ∷ l) run))
            held,
        λ x. ground (arith, size_of-le s x ((q, s) ∷ l) (omega arith, sorted.1)),
      )
      | inr e ↦
          let t = best q n l in
          let nt : t ≢ 0 =
            Run-ne_null a.fragment_size a.next_fragment a.max_fragment_offset t ((q, s) ∷ l) run
              (has-best q n l) in
          (
            t,
            cut (before_best 0 q n l) t a,
            get-cut n a q s l run pos (ground arith) (omega arith),
            record {
              run =
                  subst (RunOf (cut (before_best 0 q n l) t a)) (without-discard q s n l d)
                    (cut-Run a n q s l run d);
              distinct = Distinct-discard t ((q, s) ∷ l) d;
              sorted = Sorted-discard (2 ^ 16) t ((q, s) ∷ l) sorted;
            },
            rw (==-false t 0 nt) (best-least q s n (2 ^ 16) l pos (ground arith) d sorted),
          )
    ]
