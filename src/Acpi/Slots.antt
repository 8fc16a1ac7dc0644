-- ===== src/Acpi/Slots.antt =====
-- The arrays of pointers and the walk over the MADT, of src/acpi.c.
use bloreos.Base.{
  ℕ, zero, suc, ◌+◌, ◌<◌, ◌≡◌, refl, ap, Bool, true, false, List, [], ◌∷◌, ◌++◌, Ram, ◌==◌, arith,
  not, ◌&&◌,
}
use bloreos.Acpi.{Acpi, add_slot, add_structure, walk_structures, parse_madt, word32}

abbrev pub no_null : List ℕ → Bool
no_null [] = true
no_null (x ∷ xs) = not (x == 0) && no_null xs

-- add_ioapic and add_iso put the pointer into the first entry that is NULL and change no other, and
-- change nothing where no entry is NULL.
pub add_slot_lem :
    (xs ys : List ℕ) (p : ℕ)
    → no_null xs ≡ true
    → (add_slot (xs ++ 0 ∷ ys) p ≡ xs ++ p ∷ ys) × (add_slot xs p ≡ xs)
unfolding add_slot
add_slot_lem [] ys p h = (refl, refl)
add_slot_lem (x ∷ xs) ys p h =
    let taken : (x == 0) ≡ false = ground (arith, h) in
    let (first, full) = add_slot_lem xs ys p (ground (arith, h)) in
    rw taken (ap (λ l. x ∷ l) first, ap (λ l. x ∷ l) full)

walk_fuel :
    (f g : ℕ) (m : Ram) (start length offset : ℕ) (s : Acpi)
    → 0 < f
    → 0 < g
    → length < offset + f
    → length < offset + g
    → walk_structures f m start length offset s ≡ walk_structures g m start length offset s
unfolding walk_structures
walk_fuel zero g m start length offset s hf hg lf lg = absurd (omega arith)
walk_fuel (suc f) zero m start length offset s hf hg lf lg = absurd (omega arith)
walk_fuel (suc f) (suc g) m start length offset s hf hg lf lg = ground (
  arith,
  walk_fuel f g m start length (offset + m (start + offset + 1))
      (add_structure m s (start + offset)),
)

-- The walk over a MADT ends: whatever bound above the length of the table it is given, it does what
-- it does without one.
pub parse_madt-ends :
    (fuel : ℕ) (m : Ram) (desc : ℕ) (s : Acpi)
    → word32 m (desc + 4) < fuel
    → walk_structures fuel m (desc + 44) (word32 m (desc + 4)) 0 s ≡ parse_madt m desc s
unfolding parse_madt
parse_madt-ends fuel m desc s h =
    walk_fuel fuel (word32 m (desc + 4) + 1) m (desc + 44) (word32 m (desc + 4)) 0 s (omega arith)
      (omega arith) (omega arith) (omega arith)
