-- ===== src/Bitmap.antt =====
-- src/include/bitmap.h: a large number of flags, one bit each, in an array of bytes.
pub mod Laws
mod Tests
use bloreos.Base.{
  ℕ, ◌+◌, ◌-◌, ◌*◌, ◌/◌, ◌%◌, ◌^◌, Bool, not, bit_and, bit_or, ◌==◌, Ram, update, u8, ◌<<<◌,
}

-- The byte that `bitmap_on` stores: `|=` with an int, converted back to uint8_t.
unfoldable pub on_byte : ℕ → ℕ → ℕ
on_byte x k = u8 (bit_or x (1 <<< k))

-- The byte that `bitmap_off` stores: `~` is taken on a 32-bit int.
unfoldable pub off_byte : ℕ → ℕ → ℕ
off_byte x k = u8 (bit_and x (2 ^ 32 - 1 - (1 <<< k)))

unfoldable pub test_byte : ℕ → ℕ → Bool
test_byte x k = not (bit_and x (u8 (1 <<< k)) == 0)

unfoldable pub bitmap_test : Ram → ℕ → Bool
bitmap_test bitmap bit = test_byte (bitmap (bit / 8)) (bit % 8)

unfoldable pub bitmap_on : Ram → ℕ → Ram
bitmap_on bitmap bit = update bitmap (bit / 8) (on_byte (bitmap (bit / 8)) (bit % 8))

unfoldable pub bitmap_off : Ram → ℕ → Ram
bitmap_off bitmap bit = update bitmap (bit / 8) (off_byte (bitmap (bit / 8)) (bit % 8))
