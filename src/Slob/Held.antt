-- ===== src/Slob/Held.antt =====
-- The bytes that the free list holds.
use bloreos.Base.{
  ℕ, ◌+◌, ◌<◌, ◌^◌, ◌≡◌, refl, Bool, true, false, ◌||◌, Option, none, some, List, [], ◌∷◌, arith,
  leb, ◌==◌, if◌then◌else◌, Bool-cases, inl, inr, u64,
}
use bloreos.Boot.{Region, usable}
use bloreos.Boot.Regions.{inside, times_covered}
use bloreos.Slob.{SlobEntry, slob_entries, skip, take_entry, header_size}

-- How many entries of the free list hold the byte x.
abbrev pub times_held : List SlobEntry → ℕ → ℕ
times_held [] x = 0
times_held (e ∷ es) x = (if inside e.base e.length x then 1 else 0) + times_held es x

-- No entry reaches past the address space.
abbrev pub EntriesEnd : List SlobEntry → Type 0
EntriesEnd [] = Unit {0}
EntriesEnd (e ∷ es) = (e.base + e.length < 2 ^ 64) × EntriesEnd es

abbrev pub has_entry : ℕ → List SlobEntry → Bool
has_entry size [] = false
has_entry size (e ∷ es) = leb (size + header_size) e.length || has_entry size es

-- The list that slob_init builds holds every byte as often as the usable regions of the memory map
-- have it.
pub slob_entries-held :
    (rs : List Region) (node x : ℕ) → times_held (slob_entries node rs) x ≡ times_covered rs x
unfolding slob_entries
slob_entries-held [] node x = refl
slob_entries-held (r ∷ rs) node x = elim (Bool-cases (r.kind == usable)) [
  | inl u ↦ ground (arith, slob_entries-held rs (node + 24) x)
  | inr n ↦ ground (arith, slob_entries-held rs node x)
]

abbrev pub Taken : ℕ → List SlobEntry → Option (ℕ × List SlobEntry) → Type 0
Taken size es none = has_entry size es ≡ false
Taken size es (some (a, es')) =
    (has_entry size es ≡ true)
    × EntriesEnd es'
    × (a + (size + header_size) < 2 ^ 64)
    × ((x : ℕ)
        → times_held es x ≡ times_held es' x + (if inside a (size + header_size) x then 1 else 0))

skip-Taken :
    (size : ℕ) (e : SlobEntry) (es : List SlobEntry) (o : Option (ℕ × List SlobEntry))
    → leb (size + header_size) e.length ≡ false
    → e.base + e.length < 2 ^ 64
    → Taken size es o
    → Taken size (e ∷ es) (skip e o)
unfolding skip
skip-Taken size e es none f b t = rw (f, t)
skip-Taken size e es (some (a, es')) f b t = (rw (f, t.0), (b, t.1), t.2, λ x. omega (arith, t.3 x))

pub take_entry-Taken :
    (size : ℕ) (es : List SlobEntry)
    → size + header_size < 2 ^ 64
    → EntriesEnd es
    → Taken size es (take_entry size es)
unfolding take_entry
take_entry-Taken size [] small b = refl
take_entry-Taken size (e ∷ es) small b =
    let word : u64 (size + header_size) ≡ size + header_size = omega arith in
    let word' : u64 (header_size + size) ≡ size + header_size = omega arith in
    rw (word, word')
      (elim (Bool-cases (leb (size + header_size) e.length)) [
        | inl f ↦ rw f (rw f, (ground arith, b.1), ground arith, λ x. ground arith)
        | inr f ↦
            rw f
              (skip-Taken size e es (take_entry size es) f b.0 (take_entry-Taken size es small b.1))
      ])
