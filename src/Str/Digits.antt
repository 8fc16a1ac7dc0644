-- ===== src/Str/Digits.antt =====
-- The loop that writes the digits of a number, of src/lib/str.c.
use bloreos.Base.{
  ℕ, zero, suc, ◌+◌, ◌-◌, ◌*◌, ◌/◌, ◌%◌, ◌≤◌, ◌<◌, ◌^◌, ◌≡◌, refl, ◌⊎◌, inl, inr, false, arith, ltb,
  ◌==◌, if◌then◌else◌, Bool-cases, Ram, update, update_self,
}
use native.Mathlib.Nat.{div-lt_iff_lt-mul, mod-add-div, pow-suc, pow-zero}
use bloreos.Str.Numbers.{Digits, digit_char, digits_do}

-- The digit that a character stands for.
abbrev pub digit_value : ℕ → ℕ
digit_value c = if ltb c 58 then c - 48 else if ltb c 91 then c - 55 else c - 87

-- The number that the n characters from address a spell, the first one the most significant.
abbrev pub spelled : ℕ → Ram → ℕ → ℕ → ℕ
spelled base m a zero = 0
spelled base m a (suc n) = spelled base m a n * base + digit_value (m (a + n))

-- The same for the least significant digit first.
abbrev pub backwards : ℕ → Ram → ℕ → ℕ → ℕ
backwards base m a zero = 0
backwards base m a (suc n) = digit_value (m a) + base * backwards base m (a + 1) n

-- a or A
abbrev pub IsLetter : ℕ → Type 0
IsLetter l = (l ≡ b'a') ⊎ (l ≡ b'A')

digit_value-char : (letter r : ℕ) → IsLetter letter → r < 36 → digit_value (digit_char letter r) ≡ r
unfolding digit_char
digit_value-char letter r l h = ground arith

-- Reading one way after the characters have been turned round.
pub spelled_reversed :
    (base : ℕ) (m m' : Ram) (a total n : ℕ)
    → n ≤ total
    → ((j : ℕ) → j < total → m' (a + j) ≡ m (a + (total - 1 - j)))
    → spelled base m' a n ≡ backwards base m (a + (total - n)) n
spelled_reversed base m m' a total zero h e = refl
spelled_reversed base m m' a total (suc n) h e =
    let next : a + (total - suc n) + 1 ≡ a + (total - n) = omega arith in
    let here : a + (total - suc n) ≡ a + (total - 1 - n) = omega arith in
    rw (next, here, ← spelled_reversed base m m' a total n (omega arith) e, e n (omega arith))
      (omega arith)

module _ (letter base : ℕ) (l : IsLetter letter) (two : 1 < base) (most : base < 37) where
  -- The loop writes from index i on only, and what it writes spells the number.
  pub digits_do_frame :
      (fuel : ℕ) (m : Ram) (str num i x : ℕ)
      → x < str + i
      → (digits_do letter base fuel m str num i).mem x ≡ m x
  unfolding digits_do
  digits_do_frame zero m str num i x h = refl
  digits_do_frame (suc fuel) m str num i x h = ground (
    arith,
    digits_do_frame fuel (update m (str + i) (digit_char letter (num % base))) str (num / base)
        (i + 1) x,
  )

  digit_written : (r : ℕ) → digit_value (digit_char letter (r % base)) ≡ r % base
  digit_written r = digit_value-char letter (r % base) l (omega arith)

  -- What the loop leaves at index i, and after it.
  digits_do_first :
      (fuel : ℕ) (m : Ram) (str num i : ℕ)
      → digit_value (
          (digits_do letter base fuel
              (update m (str + i) (digit_char letter (num % base)))
              str
              (num / base)
              (i + 1)).mem
            (str + i))
        ≡ num % base
  digits_do_first fuel m str num i =
      rw
        (
          digits_do_frame fuel (update m (str + i) (digit_char letter (num % base))) str
              (num / base) (i + 1) (str + i) (omega arith),
          update_self m (str + i) (digit_char letter (num % base)),
        )
        (digit_written num)

  quotient_less : (fuel num : ℕ) → num < base ^ suc fuel → num / base < base ^ fuel
  quotient_less fuel num h =
      (div-lt_iff_lt-mul {k = base} {x = num} {y = base ^ fuel} (omega arith)).1
        (omega (arith, pow-suc base fuel))

  fuel_left : (fuel num : ℕ) → num < base ^ suc fuel → (num / base == 0) ≡ false → 0 < fuel
  fuel_left zero num h more =
      let one : base ^ 0 ≡ 1 = pow-zero base in absurd (ground (arith, quotient_less 0 num h, one))
  fuel_left (suc fuel) num h more = omega arith

  -- The loop ends within the fuel, and writes a number from index i on, least digit first.
  pub record Wrote (str num i fuel : ℕ) (d : Digits) : Type 0 where
    pub some_digit : i < d.count
    pub in_fuel : d.count ≤ i + fuel
    pub spells : backwards base d.mem (str + i) (d.count - i) ≡ num

  one_digit_more :
      (fuel : ℕ) (str num i : ℕ) (d : Digits)
      → digit_value (d.mem (str + i)) ≡ num % base
      → Wrote str (num / base) (i + 1) fuel d
      → Wrote str num i (suc fuel) d
  one_digit_more fuel str num i d e w =
      let n : d.count - i ≡ suc (d.count - (i + 1)) = omega (arith, w.some_digit) in
      let a : str + i + 1 ≡ str + (i + 1) = omega arith in
      record {
        some_digit = omega (arith, w.some_digit);
        in_fuel = omega (arith, w.in_fuel);
        spells = rw (n, e, a, w.spells) (omega (arith, mod-add-div num base));
      }

  pub digits_do-Wrote :
      (fuel : ℕ) (m : Ram) (str num i : ℕ)
      → num < base ^ fuel
      → 0 < fuel
      → Wrote str num i fuel (digits_do letter base fuel m str num i)
  unfolding digits_do
  digits_do-Wrote zero m str num i h pos = absurd (omega arith)
  digits_do-Wrote (suc fuel) m str num i h pos = elim (Bool-cases (num / base == 0)) [
    | inl last ↦ rw last (record {
      some_digit = omega arith;
      in_fuel = omega arith;
      spells =
          let n : i + 1 - i ≡ 1 = omega arith in
          rw (n, update_self m (str + i) (digit_char letter (num % base)), digit_written num)
            (ground (arith, mod-add-div num base));
    })
    | inr more ↦ rw more (
        one_digit_more fuel str num i _ (digits_do_first fuel m str num i) (
          digits_do-Wrote fuel (update m (str + i) (digit_char letter (num % base))) str
            (num / base) (i + 1) (quotient_less fuel num h) (fuel_left fuel num h more)))
  ]
