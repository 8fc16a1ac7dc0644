-- ===== src/Str/Decimal.antt =====
-- The text that __ultoa and __ultoua write is the number that they were given.
use bloreos.Base.{
  ℕ, ◌+◌, ◌-◌, ◌≤◌, ◌<◌, ◌^◌, ◌≡◌, refl, ap, ap₂, ◌∙◌, inl, inr, arith, ◌==◌, Bool-cases, Ram,
  update, update_self, update_ne,
}
use native.Mathlib.Nat.{pow-le-pow_left}
use bloreos.Str.Numbers.{Digits, digits_do, pad, finish, reverse, unsigned_to_text, ultoa, ultoua}
use bloreos.Str.Reverse.{reverse_lem}
use bloreos.Str.Digits.{spelled, backwards, spelled_reversed, IsLetter, Wrote, digits_do-Wrote}
use bloreos.Str.Alphabet.{AllDigits, digits_do-AllDigits, pad-AllDigits, finish-AllDigits}
use bloreos.Str.Padding.{
  backwards_padded, backwards_same, pad_keeps, pad_zeros, pad_grows, pad_room,
}

-- The text that a conversion leaves: the digits, the first one the most significant, and the
-- terminator after them. The characters are 0 to 9 and those from `letter` on.
pub record IsText (letter base str num : ℕ) (d : Digits) : Type 0 where
  pub digits : AllDigits letter str 0 d
  pub some_digit : 0 < d.count
  pub room : d.count ≤ 80
  pub terminated : d.mem (str + d.count) ≡ 0
  pub reads : spelled base d.mem str d.count ≡ num

module _ (letter base : ℕ) (l : IsLetter letter) (two : 1 < base) (most : base < 37) where
  -- What the conversion leaves before it turns the characters round.
  record Spelt (str num bound : ℕ) (d : Digits) : Type 0 where
    some_digit : 0 < d.count
    room : d.count ≤ bound
    spells : backwards base d.mem str d.count ≡ num
    digits : AllDigits letter str 0 d

  pad-Spelt :
      (str num : ℕ) (d : Digits) → Spelt str num 64 d → Spelt str num 80 (pad 16 d.mem str d.count)
  pad-Spelt str num d s =
      let p = pad 16 d.mem str d.count in
      let e : p.count ≡ d.count + (p.count - d.count) =
        omega (arith, pad_grows base 16 d.mem str d.count) in
      record {
        some_digit = omega (arith, s.some_digit, pad_grows base 16 d.mem str d.count);
        room = omega (arith, s.room, pad_room base 16 d.mem str d.count);
        spells =
            ap (backwards base p.mem str) e
            ∙ backwards_padded base d.count (p.count - d.count) p.mem str
                (λ j low high. pad_zeros base 16 d.mem str d.count j low (omega arith))
            ∙ backwards_same base d.count d.mem p.mem str
                (λ j h. pad_keeps base 16 d.mem str d.count (str + j) (omega arith))
            ∙ s.spells;
        digits = pad-AllDigits letter base l two most 16 str d s.digits;
      }

  enough_digits : (num : ℕ) → num < 2 ^ 64 → num < base ^ 64
  enough_digits num h =
      let more : 2 ^ 64 ≤ base ^ 64 = pow-le-pow_left two 64 in omega (arith, more)

  digits_do-Spelt :
      (m : Ram) (str num : ℕ)
      → num < 2 ^ 64
      → Spelt str num 64 (digits_do letter base 64 m str num 0)
  digits_do-Spelt m str num h =
      let w : Wrote letter base l two most str num 0 64 (digits_do letter base 64 m str num 0) =
        digits_do-Wrote letter base l two most 64 m str num 0 (enough_digits num h) (omega arith) in
      let d = digits_do letter base 64 m str num 0 in
      let a : str ≡ str + 0 = omega arith in
      let n : d.count ≡ d.count - 0 = omega arith in
      record {
        some_digit = w.some_digit;
        room = w.in_fuel;
        spells = ap₂ (backwards base d.mem) a n ∙ w.spells;
        digits = digits_do-AllDigits letter base l two most 64 m str num 0;
      }

  finish-IsText :
      (str num : ℕ) (d : Digits) → Spelt str num 80 d → IsText letter base str num (finish str d)
  unfolding finish
  finish-IsText str num d s =
      let ended = update d.mem (str + d.count) 0 in
      record {
        digits = finish-AllDigits letter base l two most str d s.some_digit s.room s.digits;
        some_digit = s.some_digit;
        room = s.room;
        terminated =
            rw (reverse_lem ended str d.count (str + d.count) s.some_digit (omega (arith, s.room)))
              (ground (arith, update_self d.mem (str + d.count) 0));
        reads =
            let here : str + (d.count - d.count) ≡ str = omega arith in
            spelled_reversed base ended (reverse ended str d.count) str d.count d.count
              (omega arith)
              (λ j h.
                rw (reverse_lem ended str d.count (str + j) s.some_digit (omega (arith, s.room)))
                  (ground arith))
            ∙ ap (λ a. backwards base ended a d.count) here
            ∙ backwards_same base d.count d.mem ended str
                (λ j h. update_ne d.mem (str + d.count) (str + j) 0 (omega arith))
            ∙ s.spells;
      }

  unsigned_to_text-IsText :
      (m : Ram) (num str : ℕ)
      → num < 2 ^ 64
      → IsText letter base str num (unsigned_to_text letter m num str base)
  unfolding unsigned_to_text
  unsigned_to_text-IsText m num str h = elim (Bool-cases (base == 16)) [
    | inl hex ↦ rw hex (finish-IsText str num _ (pad-Spelt str num _ (digits_do-Spelt m str num h)))
    | inr other ↦
        let s : Spelt str num 64 (digits_do letter base 64 m str num 0) =
          digits_do-Spelt m str num h in
        rw other (
          finish-IsText str num _ (record {
            some_digit = s.some_digit;
            room = omega (arith, s.room);
            spells = s.spells;
            digits = s.digits;
          }))
  ]

-- For every number of 64 bits and every base from 2 to 36, __ultoa and __ultoua leave at str the
-- digits of the number, the most significant first, then the terminator, eighty characters at most. Each
-- character is 0 to 9 or a letter: __ultoa writes lower case, __ultoua upper case.
pub ultoa-IsText :
    (m : Ram) (num str base : ℕ)
    → 1 < base
    → base < 37
    → num < 2 ^ 64
    → IsText b'a' base str num (ultoa m num str base)
      × IsText b'A' base str num (ultoua m num str base)
unfolding ultoa ultoua
ultoa-IsText m num str base two most h = (
  unsigned_to_text-IsText b'a' base (inl refl) two most m num str h,
  unsigned_to_text-IsText b'A' base (inr refl) two most m num str h,
)
