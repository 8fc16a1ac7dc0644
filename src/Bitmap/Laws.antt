-- ===== src/Bitmap/Laws.antt =====
-- Setting and clearing one flag, as maps of flags.
use bloreos.Base.{
  ℕ, ◌/◌, ◌%◌, ◌<◌, ◌≡◌, refl, Bool, true, false, not, arith, ◌==◌, if◌then◌else◌, Ram, all_below,
  all_below_sound,
}
use bloreos.Bitmap.{on_byte, off_byte, test_byte, bitmap_test, bitmap_on, bitmap_off}

abbrev pub IsBytes : Ram → Type 0
IsBytes m = (a : ℕ) → m a < 256

same : Bool → Bool → Bool
same true b = b
same false b = not b

same_eq : (a b : Bool) → same a b ≡ true → a ≡ b
unfolding same
same_eq a b h = ground arith

abbrev on_row : ℕ → ℕ → ℕ → Bool
on_row x k j = same (test_byte (on_byte x k) j) (if j == k then true else test_byte x j)

abbrev off_row : ℕ → ℕ → ℕ → Bool
off_row x k j = same (test_byte (off_byte x k) j) (if j == k then false else test_byte x j)

table : (ℕ → ℕ → ℕ → Bool) → Bool
table row = all_below 256 (λ x. all_below 8 (λ k. all_below 8 (λ j. row x k j)))

table_sound :
    (row : ℕ → ℕ → ℕ → Bool)
    → table row ≡ true
    → (x k j : ℕ) → x < 256
    → k < 8
    → j < 8
    → row x k j ≡ true
unfolding table
table_sound row t x k j hx hk hj =
    all_below_sound 8 (λ j. row x k j) j
      (all_below_sound 8 (λ k. all_below 8 (λ j. row x k j)) k
        (all_below_sound 256 (λ x. all_below 8 (λ k. all_below 8 (λ j. row x k j))) x t hx) hk)
      hj

on_table : table on_row ≡ true
unfolding table all_below same on_byte off_byte test_byte
on_table = refl

off_table : table off_row ≡ true
unfolding table all_below same on_byte off_byte test_byte
off_table = refl

module _ (x k j : ℕ) (hx : x < 256) (hk : k < 8) (hj : j < 8) where
  on_byte_lem : test_byte (on_byte x k) j ≡ (if j == k then true else test_byte x j)
  on_byte_lem = same_eq _ _ (table_sound on_row on_table x k j hx hk hj)

  off_byte_lem : test_byte (off_byte x k) j ≡ (if j == k then false else test_byte x j)
  off_byte_lem = same_eq _ _ (table_sound off_row off_table x k j hx hk hj)

pub bitmap_on-IsBytes : (m : Ram) (i : ℕ) → IsBytes m → IsBytes (bitmap_on m i)
unfolding bitmap_on on_byte
bitmap_on-IsBytes m i h a = ground (arith, h a)

pub bitmap_off-IsBytes : (m : Ram) (i : ℕ) → IsBytes m → IsBytes (bitmap_off m i)
unfolding bitmap_off off_byte
bitmap_off-IsBytes m i h a = ground (arith, h a)

-- After `bitmap_on` at i the flag i is set, and every other flag of the map of bytes is as before.
pub bitmap_test-on :
    (m : Ram) (i j : ℕ)
    → IsBytes m
    → bitmap_test (bitmap_on m i) j ≡ (if j == i then true else bitmap_test m j)
unfolding bitmap_test bitmap_on
bitmap_test-on m i j h =
    ground (arith, on_byte_lem (m (i / 8)) (i % 8) (j % 8) (h (i / 8)) (omega arith) (omega arith))

-- After `bitmap_off` at i the flag i is clear, and every other flag of the map of bytes is as
-- before.
pub bitmap_test-off :
    (m : Ram) (i j : ℕ)
    → IsBytes m
    → bitmap_test (bitmap_off m i) j ≡ (if j == i then false else bitmap_test m j)
unfolding bitmap_test bitmap_off
bitmap_test-off m i j h =
    ground (arith, off_byte_lem (m (i / 8)) (i % 8) (j % 8) (h (i / 8)) (omega arith) (omega arith))
