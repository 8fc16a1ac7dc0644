-- ===== src/MemOps.antt =====
-- The memory functions of src/mem.c: memcpy, memset, memmove and memcmp, over a flat memory of
-- bytes in which the two regions may overlap. Each returns the memory beside its result.
pub mod Copy
pub mod Compare
mod Tests
use bloreos.Base.{
  ℕ, zero, suc, ◌+◌, ◌-◌, Bool, true, false, ltb, ◌==◌, if◌then◌else◌, Ram, update, u8,
}

-- What memcmp returns: -1, 0 or 1.
pub data Sign : Type 0 where
  minus_one none_differ plus_one : Sign

-- for (i = ...; i < n; i++) pdest[i] = psrc[i], with `left` rounds to go.
pub copy_up : Ram → ℕ → ℕ → ℕ → ℕ → Ram
copy_up m dest src zero i = m
copy_up m dest src (suc left) i = copy_up (update m (dest + i) (m (src + i))) dest src left (i + 1)

-- for (i = n; i > 0; i--) pdest[i - 1] = psrc[i - 1].
pub copy_down : Ram → ℕ → ℕ → ℕ → Ram
copy_down m dest src zero = m
copy_down m dest src (suc i) = copy_down (update m (dest + i) (m (src + i))) dest src i

pub memcpy : Ram → ℕ → ℕ → ℕ → Ram
memcpy m dest src n = copy_up m dest src n 0

pub memset_loop : Ram → ℕ → ℕ → ℕ → ℕ → Ram
memset_loop m s c zero i = m
memset_loop m s c (suc left) i = memset_loop (update m (s + i) (u8 c)) s c left (i + 1)

unfoldable pub memset : Ram → ℕ → ℕ → ℕ → Ram
memset m s c n = memset_loop m s c n 0

pub memmove : Ram → ℕ → ℕ → ℕ → Ram
memmove m dest src n =
    if ltb dest src
    then copy_up m dest src n 0
    else if ltb src dest
    then copy_down m dest src n
    else m

pub memcmp_loop : Ram → ℕ → ℕ → ℕ → ℕ → Sign
memcmp_loop m s1 s2 zero i = none_differ
memcmp_loop m s1 s2 (suc left) i =
    let rest = memcmp_loop m s1 s2 left (i + 1) in
    if m (s1 + i) == m (s2 + i)
    then rest
    else if ltb (m (s1 + i)) (m (s2 + i))
    then minus_one
    else plus_one

unfoldable pub memcmp : Ram → ℕ → ℕ → ℕ → Sign
unfolding memcmp_loop
memcmp m s1 s2 n = memcmp_loop m s1 s2 n 0
