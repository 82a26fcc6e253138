-- ===== src/System/Words.antt =====
-- The message of a system call: what is stored is read again, and a copy of its bytes is the same
-- message.
use stm32_os.Common.{
  ℕ, zero, suc, ◌+◌, ◌-◌, ◌*◌, ◌^◌, ◌≤◌, ◌<◌, ◌≡◌, ◌⊎◌, inr, refl, sym, ap, ◌∙◌, List, true, length,
  [], ◌∷◌, arith, leb, ltb, ◌&&◌,
}
use stm32_os.Queue.{Memory}
use stm32_os.Queue.Window.{bytes}
use stm32_os.System.{
  Message, word_byte, put_word, word_at, put_words, fields, put_message, message_at,
}

-- Words are `unsigned int`.
abbrev pub Small : List ℕ → Type 0
Small [] = Unit
Small (w ∷ ws) = (w < 2 ^ 32) × Small ws

abbrev pub nth : List ℕ → ℕ → ℕ
nth [] j = 0
nth (x ∷ xs) zero = x
nth (x ∷ xs) (suc j) = nth xs j

put_word_at : (a w : ℕ) (m : Memory) (j : ℕ) → j < 4 → put_word a w m (a + j) ≡ word_byte w j
put_word_at a w m j lt =
    let e : a + j - a ≡ j = omega arith in
    let inside : (leb a (a + j) && ltb (a + j) (a + 4)) ≡ true = ground arith in rw (inside, e) refl

put_word_other : (a w : ℕ) (m : Memory) (b : ℕ) → (b < a) ⊎ (a + 4 ≤ b) → put_word a w m b ≡ m b
put_word_other a w m b out = ground arith

word_sum :
    {a b c d a' b' c' d' : ℕ}
    → a ≡ a'
    → b ≡ b'
    → c ≡ c'
    → d ≡ d'
    → a + 2 ^ 8 * b + 2 ^ 16 * c + 2 ^ 24 * d ≡ a' + 2 ^ 8 * b' + 2 ^ 16 * c' + 2 ^ 24 * d'
word_sum p q r s = λ i. p i + 2 ^ 8 * q i + 2 ^ 16 * r i + 2 ^ 24 * s i

sum_bytes :
    (w : ℕ)
    → w < 2 ^ 32
    → word_byte w 0 + 2 ^ 8 * word_byte w 1 + 2 ^ 16 * word_byte w 2 + 2 ^ 24 * word_byte w 3 ≡ w
sum_bytes w lt = omega arith

word_at_self : (a w : ℕ) (m : Memory) → w < 2 ^ 32 → word_at (put_word a w m) a ≡ w
word_at_self a w m lt =
    let z : a ≡ a + 0 = omega arith in
    let b0 = ap (put_word a w m) z ∙ put_word_at a w m 0 (omega arith) in
    let b1 = put_word_at a w m 1 (omega arith) in
    let b2 = put_word_at a w m 2 (omega arith) in
    let b3 = put_word_at a w m 3 (omega arith) in word_sum b0 b1 b2 b3 ∙ sum_bytes w lt

word_at_other :
    (a w : ℕ) (m : Memory) (b : ℕ)
    → (b + 4 ≤ a) ⊎ (a + 4 ≤ b)
    → word_at (put_word a w m) b ≡ word_at m b
word_at_other a w m b out =
    word_sum (put_word_other a w m b (ground arith)) (put_word_other a w m (b + 1) (ground arith))
      (put_word_other a w m (b + 2) (ground arith)) (put_word_other a w m (b + 3) (ground arith))

put_words-nth :
    (k a : ℕ) (ws : List ℕ) (m : Memory)
    → Small ws
    → k < length ws
    → word_at (put_words a ws m) (a + 4 * k) ≡ nth ws k
unfolding put_words
put_words-nth k a [] m small lt = ground arith
put_words-nth zero a (w ∷ ws) m small lt =
    let z : a + 4 * 0 ≡ a = omega arith in
    ap (word_at (put_word a w (put_words (a + 4) ws m))) z
    ∙ word_at_self a w (put_words (a + 4) ws m) small.0
put_words-nth (suc k) a (w ∷ ws) m small lt =
    let e : a + 4 * suc k ≡ a + 4 + 4 * k = omega arith in
    word_at_other a w (put_words (a + 4) ws m) (a + 4 * suc k) (inr (omega arith))
    ∙ ap (word_at (put_words (a + 4) ws m)) e
    ∙ put_words-nth k (a + 4) ws m small.1 (omega arith)

put_words-outside :
    (a : ℕ) (ws : List ℕ) (m : Memory) (b : ℕ)
    → (b < a) ⊎ (a + 4 * length ws ≤ b)
    → put_words a ws m b ≡ m b
unfolding put_words
put_words-outside a [] m b out = refl
put_words-outside a (w ∷ ws) m b out =
    put_word_other a w (put_words (a + 4) ws m) b (ground arith)
    ∙ put_words-outside (a + 4) ws m b (ground arith)

-- Messages with the same words.
Message_ext :
    (x : Message) {t a f p q r s v : ℕ}
    → t ≡ x.type_id
    → a ≡ x.action_thread_ptr
    → f ≡ x.func_id
    → p ≡ x.input_para0
    → q ≡ x.input_para1
    → r ≡ x.input_para2
    → s ≡ x.input_para3
    → v ≡ x.reserved
    → record {
      type_id = t;
      action_thread_ptr = a;
      func_id = f;
      input_para0 = p;
      input_para1 = q;
      input_para2 = r;
      input_para3 = s;
      reserved = v;
    }
      ≡ x
Message_ext x t a f p q r s v = λ i. record {
  type_id = t i;
  action_thread_ptr = a i;
  func_id = f i;
  input_para0 = p i;
  input_para1 = q i;
  input_para2 = r i;
  input_para3 = s i;
  reserved = v i;
}

-- A message of 32-bit words that is stored and read again is the same message, and no byte
-- outside its 32 is changed.
pub message_at-put_message :
    (a : ℕ) (x : Message) (m : Memory)
    → Small (fields x)
    → (message_at (put_message a x m) a ≡ x)
      × ((b : ℕ) → (b < a) ⊎ (a + 32 ≤ b) → put_message a x m b ≡ m b)
unfolding message_at put_message
message_at-put_message a x m small =
    let at = λ (k : ℕ) (lt : k < 8). put_words-nth k a (fields x) m small lt in
    let z : a ≡ a + 4 * 0 = omega arith in
    (
      Message_ext x (ap (word_at (put_words a (fields x) m)) z ∙ at 0 (omega arith))
          (at 1 (omega arith)) (at 2 (omega arith)) (at 3 (omega arith)) (at 4 (omega arith))
          (at 5 (omega arith)) (at 6 (omega arith)) (at 7 (omega arith)),
      put_words-outside a (fields x) m,
    )

-- The message that 32 bytes are.
abbrev pub message_of : List ℕ → Message
message_of bs = message_at (nth bs) 0

nth-bytes : (m : Memory) (p n j : ℕ) → j < n → nth (bytes m p n) j ≡ m (p + j)
nth-bytes m p zero j lt = ground arith
nth-bytes m p (suc n) zero lt = let e : p ≡ p + 0 = omega arith in ap m e
nth-bytes m p (suc n) (suc j) lt =
    let e : p + 1 + j ≡ p + suc j = omega arith in nth-bytes m (p + 1) n j (omega arith) ∙ ap m e

word_at-bytes :
    (m : Memory) (p n k : ℕ) → k + 4 ≤ n → word_at m (p + k) ≡ word_at (nth (bytes m p n)) k
word_at-bytes m p n k le =
    let at = λ (j : ℕ) (q : ℕ) (e : q ≡ p + j) (lt : j < n). ap m e ∙ sym (nth-bytes m p n j lt) in
    word_sum (at k (p + k) refl (omega arith)) (at (k + 1) (p + k + 1) (omega arith) (omega arith))
      (at (k + 2) (p + k + 2) (omega arith) (omega arith))
      (at (k + 3) (p + k + 3) (omega arith) (omega arith))

pub message_at-bytes : (m : Memory) (p n : ℕ) → n ≡ 32 → message_at m p ≡ message_of (bytes m p n)
unfolding message_at
message_at-bytes m p n e =
    let at = λ (k : ℕ) (le : k + 4 ≤ n). word_at-bytes m p n k le in
    let z : p ≡ p + 0 = omega arith in
    Message_ext (message_of (bytes m p n)) (ap (word_at m) z ∙ at 0 (omega arith))
      (at 4 (omega arith)) (at 8 (omega arith)) (at 12 (omega arith)) (at 16 (omega arith))
      (at 20 (omega arith)) (at 24 (omega arith)) (at 28 (omega arith))
