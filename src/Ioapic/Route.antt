-- ===== src/Ioapic/Route.antt =====
-- Which I/O APIC an interrupt goes to, and what is written to it, in src/ioapic.c.
use bloreos.Base.{
  ℕ, ◌+◌, ◌-◌, ◌*◌, ◌/◌, ◌%◌, ◌^◌, ◌≤◌, ◌<◌, ◌≡◌, ◌++◌, not, ◌&&◌, leb, ltb, refl, ap, sym, ◌∙◌,
  Bool, true, false, List, [], ◌∷◌, Ram, ◌==◌, if◌then◌else◌, u8, u32, u64, bit_and, bit_or, arith,
  Bool-cases, ◌⊎◌, inl, inr, bit_or_join_low, and_byte2, ◌<<<◌,
}
use bloreos.Atomic.{returns, faults}
use bloreos.Acpi.{Acpi, word32}
use bloreos.Ioapic.{
  Ioapics, ioapic_max_gsi, ioapic_redirect_gsi, ioapic_write, get_ioapic_from_gsi, manages,
  redirect_entry,
}

-- The I/O APIC at p has the GSI among those from its base on, of which there are as many as the third
-- byte of its version register says, the index of its last entry.
abbrev pub covers : Ram → Ioapics → ℕ → ℕ → Bool
covers m s gsi p =
    leb (word32 m (p + 8)) gsi && ltb gsi (word32 m (p + 8) + s.version p / 2 ^ 16 % 256)

-- The I/O APICs before the NULL that ends the list.
abbrev pub listed : List ℕ → List ℕ
listed [] = []
listed (p ∷ ps) = let rest = listed ps in if p == 0 then [] else p ∷ rest

abbrev pub none_covers : Ram → Ioapics → ℕ → List ℕ → Bool
none_covers m s gsi [] = true
none_covers m s gsi (p ∷ ps) = not (covers m s gsi p) && none_covers m s gsi ps

manages_lem : (m : Ram) (s : Ioapics) (gsi p : ℕ) → manages m s gsi p ≡ covers m s gsi p
unfolding manages ioapic_max_gsi
manages_lem m s gsi p = rw (and_byte2 (s.version p)) refl

-- The first I/O APIC of the list that has the GSI, after some that have not; NULL if there is none.
abbrev First : Ram → Ioapics → ℕ → List ℕ → ℕ → Type 0
First m s gsi ps p =
    ((p ≡ 0) × (none_covers m s gsi (listed ps) ≡ true))
    ⊎ ((before : List ℕ) × (after : List ℕ) × (listed ps ≡ before ++ (p ∷ after))
        × (none_covers m s gsi before ≡ true)
        × (covers m s gsi p ≡ true)
        × ((p == 0) ≡ false))

get_ioapic_from_gsi-First :
    (m : Ram) (s : Ioapics) (gsi : ℕ) (ps : List ℕ)
    → First m s gsi ps (get_ioapic_from_gsi m s ps gsi)
unfolding get_ioapic_from_gsi
get_ioapic_from_gsi-First m s gsi [] = inl (refl, refl)
get_ioapic_from_gsi-First m s gsi (p ∷ ps) = elim (Bool-cases (p == 0)) [
  | inl null ↦ inl (rw null refl, rw null refl)
  | inr there ↦ elim (Bool-cases (covers m s gsi p)) [
    | inl own ↦ rw (there, manages_lem m s gsi p, own) (inr ([], listed ps, refl, refl, own, there))
    | inr other ↦
        rw (there, manages_lem m s gsi p, other)
          (elim (get_ioapic_from_gsi-First m s gsi ps) [
            | inl nothing ↦ inl (nothing.0, rw (nothing.1) refl)
            | inr found ↦
                let (before, after, split, none_before, own, real) = found in
                inr (
                  p ∷ before,
                  after,
                  ap (λ l. p ∷ l) split,
                  rw (other, none_before) refl,
                  own,
                  real,
                )
          ])
  ]
]

-- A bit above all those of x.
add_bit : (k x : ℕ) → x < 2 ^ k → bit_or x (2 ^ k) ≡ x + 2 ^ k
add_bit k x h =
    let e : 1 <<< k ≡ 2 ^ k = omega arith in
    ap (bit_or x) (sym e) ∙ bit_or_join_low k 1 x h ∙ omega arith

-- The entry for a vector and a local APIC of one byte, by its fields.
abbrev pub entry_low : ℕ → ℕ → Bool → ℕ
entry_low vector flags status =
    vector
    + (if bit_and flags 2 == 0 then 0 else 2 ^ 13)
    + (if bit_and flags 8 == 0 then 0 else 2 ^ 15)
    + (if status then 0 else 2 ^ 16)

add_bit_unless :
    (b : Bool) (k x : ℕ)
    → x < 2 ^ k
    → (if b then x else bit_or x (2 ^ k)) ≡ x + (if b then 0 else 2 ^ k)
add_bit_unless true k x h = omega arith
add_bit_unless false k x h = add_bit k x h

add_top :
    (x lapic_id : ℕ)
    → x < 2 ^ 56
    → lapic_id < 256
    → bit_or x (u64 (lapic_id * 2 ^ 56)) ≡ x + lapic_id * 2 ^ 56
add_top x lapic_id h hl =
    let e : u64 (lapic_id * 2 ^ 56) ≡ lapic_id <<< 56 = omega arith in
    ap (bit_or x) e ∙ bit_or_join_low 56 lapic_id x h ∙ omega arith

unless_le : (b : Bool) (n : ℕ) → (if b then 0 else n) ≤ n
unless_le true n = omega arith
unless_le false n = omega arith

redirect_entry_lem :
    (lapic_id vector flags : ℕ) (status : Bool)
    → lapic_id < 256
    → vector < 256
    → (redirect_entry lapic_id vector flags status
        ≡ entry_low vector flags status + lapic_id * 2 ^ 56)
      × (entry_low vector flags status < 2 ^ 17)
unfolding redirect_entry
redirect_entry_lem lapic_id vector flags status hl hv =
    let p = if bit_and flags 2 == 0 then 0 else 2 ^ 13 in
    let t = if bit_and flags 8 == 0 then 0 else 2 ^ 15 in
    let k = if status then 0 else 2 ^ 16 in
    let hp : p ≤ 2 ^ 13 = unless_le (bit_and flags 2 == 0) (2 ^ 13) in
    let ht : t ≤ 2 ^ 15 = unless_le (bit_and flags 8 == 0) (2 ^ 15) in
    let hk : k ≤ 2 ^ 16 = unless_le status (2 ^ 16) in
    (
      rw
          (
            add_bit_unless (bit_and flags 2 == 0) 13 vector (omega arith),
            add_bit_unless (bit_and flags 8 == 0) 15 (vector + p) (omega (arith, hp)),
            add_bit_unless status 16 (vector + p + t) (omega (arith, hp, ht)),
          )
          (add_top (vector + p + t + k) lapic_id (omega (arith, hp, ht, hk)) hl),
      omega (arith, hp, ht, hk),
    )

-- What _ioapic_redirect_gsi writes to the I/O APIC at p.
abbrev pub redirected : Ram → Ioapics → ℕ → ℕ → ℕ → ℕ → ℕ → Bool → Ioapics
redirected m s p lapic_id vector gsi flags status =
    let reg = u32 ((u8 gsi - word32 m (p + 8)) * 2 + 16) in
    record {
      version = s.version;
      writes =
          record { ioapic = p; offset = u8 (reg + 1); value = lapic_id * 2 ^ 24 }
          ∷ record { ioapic = p; offset = u8 reg; value = entry_low vector flags status }
          ∷ s.writes;
    }

-- For a local APIC and a vector of one byte, _ioapic_redirect_gsi goes to the first I/O APIC of the
-- list, before its NULL, from whose base the GSI is less than the index of its last entry away, and
-- writes the two words of the redirect entry: the upper one has the local APIC in its top byte, the
-- lower one the vector, the polarity, the trigger and the mask. Only where the list has no such I/O
-- APIC, the NULL is read.
pub ioapic_redirect_gsi_lem :
    (m : Ram) (acpi : Acpi) (s : Ioapics) (lapic_id vector gsi flags : ℕ) (status : Bool)
    → lapic_id < 256
    → vector < 256
    → ((none_covers m s (u8 gsi) (listed acpi.ioapic_list) ≡ true)
        × (ioapic_redirect_gsi m acpi s lapic_id vector gsi flags status ≡ faults))
      ⊎ ((p : ℕ) × (before : List ℕ) × (after : List ℕ) × (listed acpi.ioapic_list
            ≡ before ++ (p ∷ after))
          × (none_covers m s (u8 gsi) before ≡ true)
          × (covers m s (u8 gsi) p ≡ true)
          × (ioapic_redirect_gsi m acpi s lapic_id vector gsi flags status
              ≡ returns (redirected m s p lapic_id vector gsi flags status) 0))
unfolding ioapic_redirect_gsi ioapic_write
ioapic_redirect_gsi_lem m acpi s lapic_id vector gsi flags status hl hv =
    let p = get_ioapic_from_gsi m s acpi.ioapic_list (u8 gsi) in
    let (e, small) = redirect_entry_lem lapic_id vector flags status hl hv in
    let high : u32 ((entry_low vector flags status + lapic_id * 2 ^ 56) / 2 ^ 32)
        ≡ lapic_id * 2 ^ 24 =
      omega (arith, small) in
    let low : u32 (entry_low vector flags status + lapic_id * 2 ^ 56)
        ≡ entry_low vector flags status =
      omega (arith, small) in
    elim (get_ioapic_from_gsi-First m s (u8 gsi) acpi.ioapic_list) [
      | inl nothing ↦
          let null : (p == 0) ≡ true = ground (arith, nothing.0) in inl (nothing.1, rw null refl)
      | inr found ↦
          let (before, after, split, none_before, own, real) = found in
          inr (p, before, after, split, none_before, own, rw (real, e, high, low) refl)
    ]

-- An I/O APIC alone in the list does not manage its last interrupt, the GSI whose distance from its
-- base is the maximum that it reports: redirecting this GSI reads the NULL.
pub ioapic_redirect_last :
    (m : Ram) (acpi : Acpi) (s : Ioapics) (p lapic_id vector flags : ℕ) (status : Bool)
    → acpi.ioapic_list ≡ p ∷ 0 ∷ []
    → word32 m (p + 8) + ioapic_max_gsi s p < 256
    → ioapic_redirect_gsi m acpi s lapic_id vector
        (word32 m (p + 8) + ioapic_max_gsi s p)
        flags
        status
      ≡ faults
unfolding ioapic_redirect_gsi get_ioapic_from_gsi manages
ioapic_redirect_last m acpi s p lapic_id vector flags status l h =
    let gsi = word32 m (p + 8) + ioapic_max_gsi s p in
    let fits : u8 gsi ≡ gsi = omega (arith, h) in
    let past : manages m s gsi p ≡ false = ground arith in
    let nothing : get_ioapic_from_gsi m s (p ∷ 0 ∷ []) gsi ≡ 0 = ground (arith, past) in
    rw (l, fits, nothing) refl
