-- ===== src/Str.antt =====
-- src/lib/str.c. Buffers stand in one memory of bytes. A string that is only read and has a
-- terminator, such as a literal, is the list of the bytes before it.
pub mod Numbers
pub mod Format
pub mod Binary
pub mod Reverse
pub mod Digits
pub mod Padding
pub mod Alphabet
pub mod Decimal
pub mod Nonzero
pub mod Compare
mod Tests
use bloreos.Base.{
  ℕ, zero, suc, ◌+◌, ◌-◌, ◌^◌, Bool, true, false, List, [], ◌∷◌, ltb, ◌==◌, if◌then◌else◌, Ram, u64,
}

-- What strcmp returns.
pub data Ordered : Type 0 where
  equal unequal : Ordered

-- for (i = 0; i < 65535; i++), with `left` rounds to go
unfoldable pub strlen_loop : Ram → ℕ → ℕ → ℕ → ℕ
strlen_loop m str zero i = 2 ^ 64 - 1
strlen_loop m str (suc left) i =
    let rest = strlen_loop m str left (i + 1) in if m (str + i) == 0 then i else rest

unfoldable pub strlen : Ram → ℕ → ℕ
unfolding strlen_loop
strlen m str = strlen_loop m str 65535 0

-- `while (*l && *r)`; 0 is `equal`, -1 `unequal`.
unfoldable pub strcmp : Ram → ℕ → List ℕ → Ordered
strcmp m l [] = equal
strcmp m l (c ∷ r) =
    let rest = strcmp m (l + 1) r in if m l == 0 then equal else if m l == c then rest else unequal
