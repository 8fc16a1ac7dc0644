-- ===== src/Boot/Regions.antt =====
-- Taking space from the memory map, byte by byte.
use bloreos.Base.{
  ℕ, ◌+◌, ◌<◌, ◌^◌, ◌≡◌, refl, inl, inr, Bool, true, false, ◌&&◌, ◌||◌, Option, none, some, List,
  [], ◌∷◌, arith, ltb, leb, ◌==◌, if◌then◌else◌, Bool-cases, u64, Ram,
}
use bloreos.MemOps.Copy.{memset_lem}
use bloreos.Boot.{memmap_taken, Region, Map, usable, align_up, fits, keep, carve, memmap_alloc}

-- x is one of the n bytes from a.
abbrev pub inside : ℕ → ℕ → ℕ → Bool
inside a n x = leb a x && ltb x (a + n)

-- 1 if the region is usable and has the byte x.
abbrev pub covers : Region → ℕ → ℕ
covers r x = if r.kind == usable then (if inside r.base r.length x then 1 else 0) else 0

-- How many usable regions have the byte x.
abbrev pub times_covered : List Region → ℕ → ℕ
times_covered [] x = 0
times_covered (r ∷ rs) x = covers r x + times_covered rs x

-- No region reaches past the address space.
abbrev pub Ends : List Region → Type 0
Ends [] = Unit {0}
Ends (r ∷ rs) = (r.base + r.length < 2 ^ 64) × Ends rs

-- Some usable region has `size` bytes.
abbrev pub has_room : ℕ → List Region → Bool
has_room size [] = false
has_room size (r ∷ rs) = fits size r || has_room size rs

abbrev pub Carved : ℕ → List Region → Option (ℕ × List Region) → Type 0
Carved size rs none = has_room size rs ≡ false
Carved size rs (some (a, rs')) =
    (has_room size rs ≡ true)
    × Ends rs'
    × ((x : ℕ) → times_covered rs x ≡ times_covered rs' x + (if inside a size x then 1 else 0))

keep-Carved :
    (size : ℕ) (r : Region) (rs : List Region) (o : Option (ℕ × List Region))
    → fits size r ≡ false
    → r.base + r.length < 2 ^ 64
    → Carved size rs o
    → Carved size (r ∷ rs) (keep r o)
unfolding keep
keep-Carved size r rs none f e c = rw (f, c)
keep-Carved size r rs (some (a, rs')) f e c = (rw (f, c.0), (e, c.1), λ x. omega (arith, c.2 x))

carve-Carved : (size : ℕ) (rs : List Region) → Ends rs → Carved size rs (carve size rs)
unfolding carve
carve-Carved size [] e = refl
carve-Carved size (r ∷ rs) e = elim (Bool-cases (fits size r)) [
  | inl f ↦ rw f (rw f, (ground arith, e.1), λ x. ground arith)
  | inr f ↦ rw f (keep-Carved size r rs (carve size rs) f e.0 (carve-Carved size rs e.1))
]

-- What memmap_alloc of the rounded size may answer.
abbrev pub Alloced : Map → ℕ → Option (ℕ × Ram × Map) → Type 0
Alloced s size none = has_room size s.regions ≡ false
Alloced s size (some (addr, bytes, s')) =
    (a : ℕ) × (addr ≡ u64 (a + s.vmm_higher_half_offset))
    × (has_room size s.regions ≡ true)
    × Ends s'.regions
    × ((x : ℕ)
        → times_covered s.regions x
          ≡ times_covered s'.regions x + (if inside a size x then 1 else 0))
    × ((i : ℕ) → i < size → bytes i ≡ 0)

taken-Alloced :
    (s : Map) (before : Ram) (size : ℕ) (o : Option (ℕ × List Region))
    → Carved size s.regions o
    → Alloced s size (memmap_taken s before size o)
unfolding memmap_taken
taken-Alloced s before size none c = c
taken-Alloced s before size (some (a, rs)) c =
    (a, refl, c.0, c.1, c.2, λ i h. ground (arith, memset_lem before 0 0 size i))

-- memmap_alloc gives zeroed memory out of the usable regions, if these end inside the address
-- space. It stops the CPU exactly when no usable region has the rounded size. Otherwise the bytes
-- handed out and those still in the map are together the usable bytes of before, each as often,
-- every byte handed out is 0, and the regions still end inside the address space.
pub memmap_alloc-Alloced :
    (s : Map) (before : Ram) (n : ℕ)
    → Ends s.regions
    → Alloced s (align_up n) (memmap_alloc s before n)
unfolding memmap_alloc
memmap_alloc-Alloced s before n e =
    taken-Alloced s before (align_up n) (carve (align_up n) s.regions)
      (carve-Carved (align_up n) s.regions e)
