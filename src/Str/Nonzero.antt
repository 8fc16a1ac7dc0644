-- ===== src/Str/Nonzero.antt =====
-- The digits that __ultoa of src/lib/str.c writes are not zero, and what stands below stays.
use bloreos.Base.{
  ℕ, zero, suc, ◌+◌, ◌-◌, ◌/◌, ◌%◌, ◌≤◌, ◌<◌, ◌^◌, ◌≡◌, ◌≢◌, refl, ◌∙◌, Bool-cases, inl, inr, arith,
  ◌==◌, Ram, update,
}
use bloreos.Str.Numbers.{Digits, digit_char, digits_do, finish, reverse, unsigned_to_text, ultoa}
use bloreos.Str.Reverse.{reverse_lem}
use bloreos.Str.Decimal.{IsText, ultoa-IsText}

digit_nonzero : (v : ℕ) → digit_char b'a' (v % 10) ≢ 0
unfolding digit_char
digit_nonzero v = ground arith

module _ (str : ℕ) where
  digits_do_nonzero :
      (fuel : ℕ) (m : Ram) (num i : ℕ)
      → ((x : ℕ) → str ≤ x → x < str + i → m x ≢ 0)
      → (x : ℕ) → str ≤ x
      → x < str + (digits_do b'a' 10 fuel m str num i).count
      → (digits_do b'a' 10 fuel m str num i).mem x ≢ 0
  unfolding digits_do
  digits_do_nonzero zero m num i h x low high = h x low high
  digits_do_nonzero (suc fuel) m num i h x low high =
      let m' = update m (str + i) (digit_char b'a' (num % 10)) in
      let kept : (x : ℕ) → str ≤ x → x < str + (i + 1) → m' x ≢ 0 =
        λ x low high. ground (arith, h x low, digit_nonzero num) in
      elim (Bool-cases (num / 10 == 0)) [
        | inl last ↦ let inside : x < str + (i + 1) = rw last at high in rw last (kept x low inside)
        | inr more ↦
            let inside : x < str + (digits_do b'a' 10 fuel m' str (num / 10) (i + 1)).count =
              rw more at high in
            rw more (digits_do_nonzero fuel m' (num / 10) (i + 1) kept x low inside)
      ]

  digits_do_below :
      (fuel : ℕ) (m : Ram) (num i x : ℕ)
      → x < str
      → (digits_do b'a' 10 fuel m str num i).mem x ≡ m x
  unfolding digits_do
  digits_do_below zero m num i x low = refl
  digits_do_below (suc fuel) m num i x low = ground (
    arith,
    digits_do_below fuel (update m (str + i) (digit_char b'a' (num % 10))) (num / 10) (i + 1) x low,
  )

-- The same after the terminator and the turning round.
module _ (m : Ram) (str n : ℕ) (pos : 0 < n) (room : n ≤ 80) where
  turned_nonzero :
      ((x : ℕ) → str ≤ x → x < str + n → m x ≢ 0)
      → (x : ℕ) → str ≤ x
      → x < str + n
      → reverse (update m (str + n) 0) str n x ≢ 0
  turned_nonzero digit x low high =
      let mirrored = digit (str + (str + n - 1) - x) (omega arith) (omega arith) in
      let e = reverse_lem (update m (str + n) 0) str n x pos (omega (arith, room)) in
      ground (arith, e, mirrored)

  turned_below : (x : ℕ) → x < str → reverse (update m (str + n) 0) str n x ≡ m x
  turned_below x low =
      let e = reverse_lem (update m (str + n) 0) str n x pos (omega (arith, room)) in
      ground (arith, e)

-- A decimal text of some bytes, none of them zero, that ends with a zero, on top of what stood below.
pub record IsDecimal (m : Ram) (str : ℕ) (d : Digits) : Type 0 where
  pub some_digit : 0 < d.count
  pub room : d.count ≤ 80
  pub terminated : d.mem (str + d.count) ≡ 0
  pub nonzero : (x : ℕ) → str ≤ x → x < str + d.count → d.mem x ≢ 0
  pub below : (x : ℕ) → x < str → d.mem x ≡ m x

pub ultoa-IsDecimal : (m : Ram) (num str : ℕ) → num < 2 ^ 64 → IsDecimal m str (ultoa m num str 10)
unfolding ultoa unsigned_to_text finish
ultoa-IsDecimal m num str small =
    let text : IsText b'a' 10 str num (ultoa m num str 10) =
      (ultoa-IsText m num str 10 (omega arith) (omega arith) small).0 in
    let d = digits_do b'a' 10 64 m str num 0 in
    let digit = digits_do_nonzero str 64 m num 0 (λ x low high. absurd (omega arith)) in
    record {
      some_digit = text.some_digit;
      room = text.room;
      terminated = text.terminated;
      nonzero = turned_nonzero d.mem str d.count text.some_digit text.room digit;
      below = λ x low.
          turned_below d.mem str d.count text.some_digit text.room x low
          ∙ digits_do_below str 64 m num 0 x low;
    }
