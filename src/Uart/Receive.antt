-- ===== src/Uart/Receive.antt =====
-- USART1_IRQHandler and the case READ of UART_driver: the characters that were received since the
-- last read.
use stm32_os.Common.{
  ℕ, zero, suc, ◌+◌, ◌-◌, ◌/◌, ◌%◌, ◌≤◌, ◌<◌, ◌≡◌, ◌≢◌, ◌⊎◌, ◌&&◌, refl, sym, ap, ap₂, ◌∙◌, List,
  [], ◌∷◌, ◌++◌, arith, ◌==◌, ==-true, ==-false, Bool-cases, inl, inr, leb, ltb, if◌then◌else◌,
  update, length,
}
use stm32_os.Queue.{Memory}
use stm32_os.Queue.Window.{bytes}
use stm32_os.Queue.Shape.{bytes_ext}
use stm32_os.Uart.{Uart, uart_buff_size, usart1_irq_handler, uart_read}

-- The first `n` elements, and all but the last one.
abbrev pub first : ℕ → List ℕ → List ℕ
first zero xs = []
first (suc n) [] = []
first (suc n) (x ∷ xs) = x ∷ first n xs

abbrev pub without_last : List ℕ → List ℕ
without_last [] = []
without_last (x ∷ []) = []
without_last (x ∷ y ∷ xs) = x ∷ without_last (y ∷ xs)

-- What a full line does with a character more: it takes the place of the last one.
abbrev pub store : List ℕ → ℕ → List ℕ
store line c = if length line == uart_buff_size then without_last line ++ c ∷ [] else line ++ c ∷ []

-- The characters in the buffer. Nothing outside it was changed since it was `before`.
pub record Line (u : Uart) (before : ℕ → ℕ) (line : List ℕ) : Type 0 where
  pub bound : u.rece_offset ≤ uart_buff_size
  pub holds : bytes u.rece_buff 0 u.rece_offset ≡ line
  pub outside : (i : ℕ) → uart_buff_size ≤ i → u.rece_buff i ≡ before i

bytes_snoc : (f : ℕ → ℕ) (p n : ℕ) → bytes f p (suc n) ≡ bytes f p n ++ f (p + n) ∷ []
bytes_snoc f p zero = let e : p ≡ p + 0 = omega arith in ap (λ q. f q ∷ []) e
bytes_snoc f p (suc n) =
    let e : p + 1 + n ≡ p + suc n = omega arith in
    ap (λ t. f p ∷ t) (bytes_snoc f (p + 1) n ∙ ap (λ q. bytes f (p + 1) n ++ f q ∷ []) e)

length-bytes : (f : ℕ → ℕ) (p n : ℕ) → length (bytes f p n) ≡ n
length-bytes f p zero = refl
length-bytes f p (suc n) = ap suc (length-bytes f (p + 1) n)

without_last-append : (xs : List ℕ) (c : ℕ) → without_last (xs ++ c ∷ []) ≡ xs
without_last-append [] c = refl
without_last-append (x ∷ []) c = refl
without_last-append (x ∷ y ∷ xs) c = ap (λ t. x ∷ t) (without_last-append (y ∷ xs) c)

first-bytes : (f : ℕ → ℕ) (p n k : ℕ) → n ≤ k → first n (bytes f p k) ≡ bytes f p n
first-bytes f p zero k le = refl
first-bytes f p (suc n) zero le = ground arith
first-bytes f p (suc n) (suc k) le = ap (λ t. f p ∷ t) (first-bytes f (p + 1) n k (omega arith))

-- A character is written at the end of `n` ones.
bytes-update : (f : ℕ → ℕ) (n c : ℕ) → bytes (update f n c) 0 (n + 1) ≡ bytes f 0 n ++ c ∷ []
bytes-update f n c =
    let e : n + 1 ≡ suc n = omega arith in
    let kept = bytes_ext (update f n c) f 0 0 n (λ j lt. ground arith) in
    let at : update f n c (0 + n) ≡ c = ground arith in
    ap (bytes (update f n c) 0) e ∙ bytes_snoc (update f n c) 0 n ∙ ap₂ (λ t d. t ++ d ∷ []) kept at

Line-room :
    (u : Uart) (before : ℕ → ℕ) (line : List ℕ) (dr : ℕ)
    → Line u before line
    → u.rece_offset < uart_buff_size
    → Line
        (record u {
          rece_buff = update u.rece_buff u.rece_offset dr;
          rece_offset = u.rece_offset + 1;
        })
        before
        (line ++ dr ∷ [])
Line-room u before line dr l room = record {
  bound = omega arith;
  holds = bytes-update u.rece_buff u.rece_offset dr ∙ ap (λ t. t ++ dr ∷ []) l.holds;
  outside = λ i le.
      let ne : u.rece_offset ≢ i = omega arith in rw (==-false u.rece_offset i ne) (l.outside i le);
}

Line-full :
    (u : Uart) (before : ℕ → ℕ) (line : List ℕ) (dr n : ℕ)
    → Line u before line
    → u.rece_offset ≡ n + 1
    → n + 1 ≡ uart_buff_size
    → Line
        (record u { rece_buff = update u.rece_buff n dr; rece_offset = n + 1 })
        before
        (without_last line ++ dr ∷ [])
Line-full u before line dr n l full end =
    let e : n + 1 ≡ suc n = omega arith in
    let split = sym l.holds ∙ ap (bytes u.rece_buff 0) (full ∙ e) ∙ bytes_snoc u.rece_buff 0 n in
    let rest =
      ap without_last split ∙ without_last-append (bytes u.rece_buff 0 n) (u.rece_buff (0 + n)) in
    record {
      bound = omega arith;
      holds = bytes-update u.rece_buff n dr ∙ ap (λ t. t ++ dr ∷ []) (sym rest);
      outside = λ i le. let ne : n ≢ i = omega arith in rw (==-false n i ne) (l.outside i le);
    }

-- The interrupts of the line, with what they read from SR and DR, one after the other; and what
-- they mean.
abbrev pub interrupts : List (ℕ × ℕ) → Uart → Uart
interrupts [] u = u
interrupts ((sr, dr) ∷ rest) u = interrupts rest (usart1_irq_handler sr dr u)

abbrev pub received : List (ℕ × ℕ) → List ℕ → List ℕ
received [] line = line
received ((sr, dr) ∷ rest) line =
    received rest (if sr / 0x10 % 2 == 1 then line else store line (dr % 256))

usart1_irq_handler-Line :
    (sr dr : ℕ) (u : Uart) (before : ℕ → ℕ) (line : List ℕ)
    → Line u before line
    → Line
        (usart1_irq_handler sr dr u)
        before
        (if sr / 0x10 % 2 == 1 then line else store line (dr % 256))
unfolding usart1_irq_handler
usart1_irq_handler-Line sr dr u before line l =
    let count : length line ≡ u.rece_offset =
      ap length (sym l.holds) ∙ length-bytes u.rece_buff 0 u.rece_offset in
    let bound = l.bound in
    elim (Bool-cases (sr / 0x10 % 2 == 1)) [
      | inl e ↦ rw e l
      | inr e ↦ elim (Bool-cases (leb uart_buff_size u.rece_offset)) [
        | inl full ↦
            let at : u.rece_offset ≡ 255 + 1 = ground arith in
            rw (e, full, ==-true (length line) uart_buff_size (count ∙ at))
              (Line-full u before line (dr % 256) 255 l at refl)
        | inr room ↦
            let ne : length line ≢ uart_buff_size = ground arith in
            rw (e, room, ==-false (length line) uart_buff_size ne)
              (Line-room u before line (dr % 256) l (ground arith))
      ]
    ]

interrupts-Line :
    (events : List (ℕ × ℕ)) (u : Uart) (before : ℕ → ℕ) (line : List ℕ)
    → Line u before line
    → Line (interrupts events u) before (received events line)
interrupts-Line [] u before line l = l
interrupts-Line ((sr, dr) ∷ rest) u before line l =
    interrupts-Line rest (usart1_irq_handler sr dr u) before
      (if sr / 0x10 % 2 == 1 then line else store line (dr % 256))
      (usart1_irq_handler-Line sr dr u before line l)

-- What a read of at most `size` characters leaves, with the characters `line` received.
pub record Read (line : List ℕ) (before : ℕ → ℕ) (m : Memory) (buff size : ℕ) (u : Uart)
    (m' : Memory) : Type 0 where
  pub copied : bytes m' buff (length (first size line)) ≡ first size line
  pub emptied : Line u before []
  pub others : (a : ℕ) → (buff + size ≤ a) ⊎ (a < buff) → m' a ≡ m a

first_all : (n : ℕ) (xs : List ℕ) → length xs ≤ n → first n xs ≡ xs
first_all zero [] le = refl
first_all zero (x ∷ xs) le = ground arith
first_all (suc n) [] le = refl
first_all (suc n) (x ∷ xs) le = ap (λ t. x ∷ t) (first_all n xs (omega arith))

-- The characters that are copied where `size` characters are asked for.
first-line :
    (f : ℕ → ℕ) (size k : ℕ) → first size (bytes f 0 k) ≡ bytes f 0 (if ltb k size then k else size)
first-line f size k = elim (Bool-cases (ltb k size)) [
  | inl e ↦ let count = length-bytes f 0 k in rw e (first_all size (bytes f 0 k) (ground arith))
  | inr e ↦ rw e (first-bytes f 0 size k (ground arith))
]

copied_bytes :
    (f : ℕ → ℕ) (m : Memory) (buff n : ℕ)
    → bytes (λ a. if leb buff a && ltb a (buff + n) then f (a - buff) else m a) buff n ≡ bytes f 0 n
copied_bytes f m buff n =
    bytes_ext (λ a. if leb buff a && ltb a (buff + n) then f (a - buff) else m a) f buff 0 n
      (λ j lt. ground arith)

uart_read-Read :
    (u : Uart) (before : ℕ → ℕ) (line : List ℕ) (m : Memory) (buff size : ℕ)
    → Line u before line
    → (let t = uart_read buff size (u, m) in Read line before m buff size t.1 t.2)
unfolding uart_read
uart_read-Read u before line m buff size l =
    let n = if ltb u.rece_offset size then u.rece_offset else size in
    let le : n ≤ size = ground arith in
    let asked : first size line ≡ bytes u.rece_buff 0 n =
      ap (first size) (sym l.holds) ∙ first-line u.rece_buff size u.rece_offset in
    let count : length (first size line) ≡ n = ap length asked ∙ length-bytes u.rece_buff 0 n in
    let m' : Memory = λ a. if leb buff a && ltb a (buff + n) then u.rece_buff (a - buff) else m a in
    record {
      copied = ap (bytes m' buff) count ∙ copied_bytes u.rece_buff m buff n ∙ sym asked;
      emptied = record { bound = omega arith; holds = refl; outside = l.outside };
      others = λ a out. ground arith;
    }

-- From an empty buffer on, whatever interrupts come, a read into a place in memory gets the first
-- `size` characters of the line, or all where they are fewer: the characters in their order, each
-- the low byte of what DR read, without those of idle interrupts, where a character for a full
-- buffer takes the place of the last one. The read empties the buffer, nothing behind its end was
-- ever written, and no other byte of the memory is changed.
pub uart_read-line :
    (events : List (ℕ × ℕ)) (u : Uart) (m : Memory) (buff size : ℕ)
    → u.rece_offset ≡ 0
    → (let t = uart_read buff size (interrupts events u, m) in
        Read (received events []) u.rece_buff m buff size t.1 t.2)
uart_read-line events u m buff size empty =
    uart_read-Read (interrupts events u) u.rece_buff (received events []) m buff size (
      interrupts-Line events u u.rece_buff [] (record {
        bound = omega arith;
        holds = ap (bytes u.rece_buff 0) empty;
        outside = λ i le. refl;
      }))
