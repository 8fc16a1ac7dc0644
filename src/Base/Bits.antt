-- ===== src/Base/Bits.antt =====
-- Shifts and masks. The native bit operations stand for a recursion on binary digits with fuel;
-- dropping the fuel gives the law for the lowest digit, and from it the laws for masks and fields.
use Prim.Native.Nat.{
  ℕ, zero, suc, ◌+◌, ◌-◌, ◌*◌, ◌/◌, ◌%◌, ◌^◌, ◌≤◌, ◌<◌, min, max, bit_and, bit_or,
}
use Prim.Native.Nat.{digits, bit_and-bitwise, bit_or-bitwise}
use mathlib.Core.Path.{◌≡◌, refl, ap, ◌∙◌}
use mathlib.Core.Bool.{Bool, true, ◌&&◌}
use native.Mathlib.Omega.{arith}
use native.Mathlib.Nat.{pow-suc, one-le-pow, le_refl}

infixl 75 ◌<<<◌ ◌>>>◌
abbrev pub ◌<<<◌ : ℕ → ℕ → ℕ
x <<< k = x * 2 ^ k

abbrev pub ◌>>>◌ : ℕ → ℕ → ℕ
x >>> k = x / 2 ^ k

abbrev pub u8 : ℕ → ℕ
u8 n = n % 2 ^ 8

abbrev pub u16 : ℕ → ℕ
u16 n = n % 2 ^ 16

abbrev pub u32 : ℕ → ℕ
u32 n = n % 2 ^ 32

abbrev pub u64 : ℕ → ℕ
u64 n = n % 2 ^ 64

-- A table of tests that evaluation settles, one at each number below the bound.
unfoldable pub all_below : ℕ → (ℕ → Bool) → Bool
all_below zero holds = true
all_below (suc last) holds = all_below last holds && holds last

pub all_below_sound :
    (bound : ℕ) (holds : ℕ → Bool) (i : ℕ)
    → all_below bound holds ≡ true
    → i < bound
    → holds i ≡ true
unfolding all_below
all_below_sound zero holds i table inside = absurd (omega (arith, inside))
all_below_sound (suc last) holds i table inside =
    let earlier = all_below_sound last holds i in ground (arith, earlier, table, inside)

module _ (z : ℕ → ℕ) (f : ℕ → ℕ → ℕ) where
  same_digits : (p q x y : ℕ) → x ≤ p → x ≤ q → digits z f p x y ≡ digits z f q x y
  same_digits zero zero x y hp hq = refl
  same_digits zero (suc q) zero y hp hq = refl
  same_digits zero (suc q) (suc x) y hp hq = absurd (omega arith)
  same_digits (suc p) zero zero y hp hq = refl
  same_digits (suc p) zero (suc x) y hp hq = absurd (omega arith)
  same_digits (suc p) (suc q) zero y hp hq = refl
  same_digits (suc p) (suc q) (suc x) y hp hq =
      omega (arith, same_digits p q (suc x / 2) (y / 2) (omega arith) (omega arith))

pub or_digit : (a b : ℕ) → bit_or a b ≡ bit_or (a / 2) (b / 2) * 2 + max (a % 2) (b % 2)
or_digit zero b = omega (arith, bit_or-bitwise 0 b, bit_or-bitwise 0 (b / 2))
or_digit (suc a) b = omega (
  arith,
  bit_or-bitwise (suc a) b,
  bit_or-bitwise (suc a / 2) (b / 2),
  same_digits (λ y. y) max a (suc a / 2) (suc a / 2) (b / 2) (omega arith) (le_refl _),
)

pub and_digit : (a b : ℕ) → bit_and a b ≡ bit_and (a / 2) (b / 2) * 2 + min (a % 2) (b % 2)
and_digit zero b = omega (arith, bit_and-bitwise 0 b, bit_and-bitwise 0 (b / 2))
and_digit (suc a) b = omega (
  arith,
  bit_and-bitwise (suc a) b,
  bit_and-bitwise (suc a / 2) (b / 2),
  same_digits (λ y. zero) min a (suc a / 2) (suc a / 2) (b / 2) (omega arith) (le_refl _),
)

or_zero_upto : (bound a : ℕ) → a ≤ bound → bit_or a 0 ≡ a
or_zero_upto bound zero h = refl
or_zero_upto zero (suc a) h = absurd (omega arith)
or_zero_upto (suc bound) (suc a) h =
    omega (arith, or_digit (suc a) 0, or_zero_upto bound (suc a / 2) (omega arith))

and_zero_upto : (bound a : ℕ) → a ≤ bound → bit_and a 0 ≡ 0
and_zero_upto bound zero h = refl
and_zero_upto zero (suc a) h = absurd (omega arith)
and_zero_upto (suc bound) (suc a) h =
    omega (arith, and_digit (suc a) 0, and_zero_upto bound (suc a / 2) (omega arith))

pub bit_or-zero : (a : ℕ) → bit_or a 0 ≡ a
bit_or-zero a = or_zero_upto a a (le_refl a)

pub bit_and-zero : (a : ℕ) → bit_and a 0 ≡ 0
bit_and-zero a = and_zero_upto a a (le_refl a)

scaled_suc : (q k : ℕ) → q * 2 ^ suc k ≡ 2 * (q * 2 ^ k)
scaled_suc q k = omega (arith, ap (λ (t : ℕ). q * t) (pow-suc 2 k))

-- (q << k) | r is a sum where r fits the k low bits.
pub bit_or_join : (k q r : ℕ) → r < 2 ^ k → bit_or (q <<< k) r ≡ q * 2 ^ k + r
bit_or_join zero q r fits = ground (arith, bit_or-zero q)
bit_or_join (suc k) q r fits = ground (
  arith,
  or_digit (q * 2 ^ suc k) r,
  scaled_suc q k,
  pow-suc 2 k,
  bit_or_join k q (r / 2) (omega (arith, pow-suc 2 k)),
)

-- x & (2^k - 1) is the remainder by 2^k.
mask_split : (k q r : ℕ) → r < 2 ^ k → bit_and (q * 2 ^ k + r) (2 ^ k - 1) ≡ r
mask_split zero q r fits = rw bit_and-zero (omega arith)
mask_split (suc k) q r fits = ground (
  arith,
  and_digit (q * 2 ^ suc k + r) (2 ^ suc k - 1),
  scaled_suc q k,
  pow-suc 2 k,
  one-le-pow k 2,
  mask_split k q (r / 2) (omega (arith, pow-suc 2 k)),
)

pub bit_and_mask : (k a : ℕ) → bit_and a (2 ^ k - 1) ≡ a % 2 ^ k
bit_and_mask k a = ground (arith, one-le-pow k 2, mask_split k (a / 2 ^ k) (a % 2 ^ k))

zero-bit_or : (b : ℕ) → bit_or 0 b ≡ b
zero-bit_or b = bit_or-bitwise 0 b

or_comm_upto : (bound a b : ℕ) → a ≤ bound → bit_or a b ≡ bit_or b a
or_comm_upto bound zero b h = omega (arith, zero-bit_or b, bit_or-zero b)
or_comm_upto zero (suc a) b h = absurd (omega arith)
or_comm_upto (suc bound) (suc a) b h = omega (
  arith,
  or_digit (suc a) b,
  or_digit b (suc a),
  or_comm_upto bound (suc a / 2) (b / 2) (omega arith),
)

pub bit_or_comm : (a b : ℕ) → bit_or a b ≡ bit_or b a
bit_or_comm a b = or_comm_upto a a b (le_refl a)

-- The same with the low part first.
pub bit_or_join_low : (k q r : ℕ) → r < 2 ^ k → bit_or r (q <<< k) ≡ q * 2 ^ k + r
bit_or_join_low k q r fits = bit_or_comm r (q <<< k) ∙ bit_or_join k q r fits

-- A mask of bits from the second, third, ... on.
and_twice : (x m : ℕ) → bit_and x (m * 2) ≡ bit_and (x / 2) m * 2
and_twice x m = let e : m * 2 / 2 ≡ m = omega arith in rw (and_digit x (m * 2), e) (omega arith)

and_4 : (x m : ℕ) → bit_and x (m * 4) ≡ bit_and (x / 4) m * 4
and_4 x m =
    let e : m * 4 ≡ m * 2 * 2 = omega arith in
    let q : x / 2 / 2 ≡ x / 4 = omega arith in
    rw (e, and_twice x (m * 2), and_twice (x / 2) m, q) (omega arith)

and_64 : (x m : ℕ) → bit_and x (m * 64) ≡ bit_and (x / 64) m * 64
and_64 x m =
    let e : m * 64 ≡ m * 4 * 4 * 4 = omega arith in
    let q : x / 4 / 4 / 4 ≡ x / 64 = omega arith in
    rw (e, and_4 x (m * 4 * 4), and_4 (x / 4) (m * 4), and_4 (x / 4 / 4) m, q) (omega arith)

pub and_4096 : (x m : ℕ) → bit_and x (m * 4096) ≡ bit_and (x / 4096) m * 4096
and_4096 x m =
    let e : m * 4096 ≡ m * 64 * 64 = omega arith in
    let q : x / 64 / 64 ≡ x / 4096 = omega arith in
    rw (e, and_64 x (m * 64), and_64 (x / 64) m, q) (omega arith)

-- The third byte.
pub and_byte2 : (v : ℕ) → bit_and v 0xff0000 / 2 ^ 16 ≡ v / 2 ^ 16 % 256
and_byte2 v =
    let q : v / 4096 / 4 / 4 ≡ v / 2 ^ 16 = omega arith in
    let e : bit_and v (0xff * 4 * 4 * 4096) ≡ bit_and (v / 2 ^ 16) 0xff * 4 * 4 * 4096 =
      rw (and_4096 v (0xff * 4 * 4), and_4 (v / 4096) (0xff * 4), and_4 (v / 4096 / 4) 0xff, q)
        refl in
    omega (arith, e, bit_and_mask 8 (v / 2 ^ 16))
