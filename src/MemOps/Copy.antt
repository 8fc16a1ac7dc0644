-- ===== src/MemOps/Copy.antt =====
-- What the copying loops and memset leave in memory, address by address.
use bloreos.Base.{
  ℕ, zero, suc, ◌+◌, ◌-◌, ◌≤◌, ◌≡◌, ◌⊎◌, Bool, ◌&&◌, arith, ltb, leb, if◌then◌else◌, Ram, update,
  u8,
}
use bloreos.MemOps.{copy_up, copy_down, memcpy, memset_loop, memset, memmove}

-- x lies in the n bytes from a.
abbrev pub inside : ℕ → ℕ → ℕ → Bool
inside a n x = leb a x && ltb x (a + n)

copy_up_lem :
    (left i : ℕ) (m : Ram) (dest src x : ℕ)
    → (dest ≤ src) ⊎ (src + i + left ≤ dest + i)
    → copy_up m dest src left i x ≡ (if inside (dest + i) left x then m (src + (x - dest)) else m x)
unfolding copy_up
copy_up_lem zero i m dest src x h = ground arith
copy_up_lem (suc left) i m dest src x h =
    ground (arith, copy_up_lem left (i + 1) (update m (dest + i) (m (src + i))) dest src x)

copy_down_lem :
    (n : ℕ) (m : Ram) (dest src x : ℕ)
    → src ≤ dest
    → copy_down m dest src n x ≡ (if inside dest n x then m (src + (x - dest)) else m x)
unfolding copy_down
copy_down_lem zero m dest src x h = ground arith
copy_down_lem (suc n) m dest src x h =
    ground (arith, copy_down_lem n (update m (dest + n) (m (src + n))) dest src x)

memset_loop_lem :
    (left i : ℕ) (m : Ram) (s c x : ℕ)
    → memset_loop m s c left i x ≡ (if inside (s + i) left x then u8 c else m x)
unfolding memset_loop
memset_loop_lem zero i m s c x = ground arith
memset_loop_lem (suc left) i m s c x =
    ground (arith, memset_loop_lem left (i + 1) (update m (s + i) (u8 c)) s c x)

-- memmove leaves the old n bytes of the source at the destination, however the two regions
-- overlap, and changes no byte outside the destination.
pub memmove_lem :
    (m : Ram) (dest src n x : ℕ)
    → memmove m dest src n x ≡ (if inside dest n x then m (src + (x - dest)) else m x)
unfolding memmove
memmove_lem m dest src n x =
    ground (arith, copy_up_lem n 0 m dest src x, copy_down_lem n m dest src x)

-- memcpy does the same where the destination starts at or below the source or past its end, and
-- changes no byte outside the destination.
pub memcpy_lem :
    (m : Ram) (dest src n x : ℕ)
    → (dest ≤ src) ⊎ (src + n ≤ dest)
    → memcpy m dest src n x ≡ (if inside dest n x then m (src + (x - dest)) else m x)
unfolding memcpy
memcpy_lem m dest src n x h = ground (arith, copy_up_lem n 0 m dest src x)

-- memset stores the low byte of c at each of the n addresses from s, and nothing elsewhere.
pub memset_lem : (m : Ram) (s c n x : ℕ) → memset m s c n x ≡ (if inside s n x then u8 c else m x)
unfolding memset
memset_lem m s c n x = ground (arith, memset_loop_lem n 0 m s c x)
