-- ===== src/Str/Alphabet.antt =====
-- Which characters the conversions of src/lib/str.c write.
use bloreos.Base.{
  ℕ, zero, suc, ◌+◌, ◌-◌, ◌/◌, ◌%◌, ◌≤◌, ◌<◌, ◌≡◌, refl, ap, ◌∙◌, inl, inr, Bool, true, false,
  arith, ltb, leb, ◌==◌, ◌&&◌, ◌||◌, if◌then◌else◌, Bool-cases, Ram, update, update_self, update_ne,
}
use bloreos.Str.Numbers.{Digits, digit_char, digits_do, pad, finish, reverse}
use bloreos.Str.Reverse.{reverse_lem}
use bloreos.Str.Digits.{IsLetter, digits_do_frame}
use bloreos.Str.Padding.{pad_keeps, pad_zeros}

-- One of 0 to 9, or of the 26 characters from `letter` on.
abbrev pub is_digit : ℕ → ℕ → Bool
is_digit letter c = leb b'0' c && leb c b'9' || leb letter c && ltb c (letter + 26)

-- The characters of the text at str from index i on.
abbrev pub AllDigits : ℕ → ℕ → ℕ → Digits → Type 0
AllDigits letter str i d = (j : ℕ) → i ≤ j → j < d.count → is_digit letter (d.mem (str + j)) ≡ true

digit_char-is_digit :
    (letter r : ℕ) → IsLetter letter → r < 36 → is_digit letter (digit_char letter r) ≡ true
unfolding digit_char
digit_char-is_digit letter r l h = ground arith

module _ (letter base : ℕ) (l : IsLetter letter) (two : 1 < base) (most : base < 37) where
  -- The character at index i, and those after it.
  one_more :
      (m' : Ram) (str num i : ℕ) (rest : Digits)
      → m' (str + i) ≡ digit_char letter (num % base)
      → (rest.mem (str + i) ≡ m' (str + i))
      → AllDigits letter str (i + 1) rest
      → AllDigits letter str i
          (if num / base == 0 then record { mem = m'; count = i + 1 } else rest)
  one_more m' str num i rest written kept later j low high = elim (Bool-cases (j == i)) [
    | inl here ↦ at_i (num / base == 0) (ground (arith, here))
    | inr other ↦ behind (num / base == 0) (ground (arith, other)) high
  ]
    where
      first : is_digit letter (digit_char letter (num % base)) ≡ true
      first = digit_char-is_digit letter (num % base) l (omega arith)

      at_i :
          (b : Bool)
          → j ≡ i
          → is_digit letter ((if b then record { mem = m'; count = i + 1 } else rest).mem (str + j))
            ≡ true
      at_i true at = rw (at, written) first
      at_i false at = rw (at, kept, written) first

      behind :
          (b : Bool)
          → i < j
          → j < (if b then record { mem = m'; count = i + 1 } else rest).count
          → is_digit letter ((if b then record { mem = m'; count = i + 1 } else rest).mem (str + j))
            ≡ true
      behind true more less = absurd (omega (arith, more, less))
      behind false more less = later j (omega (arith, more)) less

  pub digits_do-AllDigits :
      (fuel : ℕ) (m : Ram) (str num i : ℕ)
      → AllDigits letter str i (digits_do letter base fuel m str num i)
  unfolding digits_do
  digits_do-AllDigits zero m str num i j low high = absurd (omega arith)
  digits_do-AllDigits (suc fuel) m str num i j low high =
      let m' = update m (str + i) (digit_char letter (num % base)) in
      let rest = digits_do letter base fuel m' str (num / base) (i + 1) in
      one_more m' str num i rest (update_self m (str + i) (digit_char letter (num % base)))
        (digits_do_frame letter base l two most fuel m' str (num / base) (i + 1) (str + i)
          (omega arith))
        (digits_do-AllDigits fuel m' str (num / base) (i + 1)) j low high

  pub pad-AllDigits :
      (fuel str : ℕ) (d : Digits)
      → AllDigits letter str 0 d
      → AllDigits letter str 0 (pad fuel d.mem str d.count)
  pad-AllDigits fuel str d a j low high = elim (Bool-cases (ltb j d.count)) [
    | inl old ↦
        rw (pad_keeps base fuel d.mem str d.count (str + j) (ground (arith, old)))
          (a j low (ground (arith, old)))
    | inr new ↦ rw (pad_zeros base fuel d.mem str d.count j (ground (arith, new)) high) refl
  ]

  pub finish-AllDigits :
      (str : ℕ) (d : Digits)
      → 0 < d.count
      → d.count ≤ 80
      → AllDigits letter str 0 d
      → AllDigits letter str 0 (finish str d)
  unfolding finish
  finish-AllDigits str d some_digit room a j low high =
      let ended = update d.mem (str + d.count) 0 in
      let k = d.count - 1 - j in
      let turned : reverse ended str d.count (str + j) ≡ ended (str + k) =
        rw (reverse_lem ended str d.count (str + j) some_digit (omega (arith, room)))
          (ground arith) in
      let same : ended (str + k) ≡ d.mem (str + k) =
        update_ne d.mem (str + d.count) (str + k) 0 (omega (arith, some_digit)) in
      ap (is_digit letter) (turned ∙ same) ∙ a k (omega arith) (omega (arith, some_digit))
