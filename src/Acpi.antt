-- ===== src/Acpi.antt =====
-- src/acpi.c: the walk over the ACPI tables. The tables stand in a memory of bytes, which the
-- firmware has filled; pointers are addresses of it, and NULL is 0. Messages are left out.
pub mod Slots
pub mod Layout
mod Tests
use bloreos.Base.{
  ℕ, zero, suc, ◌+◌, ◌-◌, ◌*◌, ◌/◌, ◌^◌, Bool, true, false, ◌&&◌, ◌||◌, List, [], ◌∷◌, Ram, ltb,
  leb, ◌==◌, if◌then◌else◌, u32, u64, replicate,
}
use bloreos.Atomic.{Outcome, returns, halts}

-- Little-endian words.
abbrev pub word16 : Ram → ℕ → ℕ
word16 m a = m a + m (a + 1) * 2 ^ 8

abbrev pub word32 : Ram → ℕ → ℕ
word32 m a = word16 m a + word16 m (a + 2) * 2 ^ 16

abbrev pub word64 : Ram → ℕ → ℕ
word64 m a = word32 m a + word32 m (a + 4) * 2 ^ 32

-- The globals: the two arrays of pointers, and the tables that were found.
pub record Acpi : Type 0 where
  pub ioapic_list : List ℕ
  pub iso_list : List ℕ
  pub hpet : ℕ
  pub mcfg : ℕ

-- All entries NULL, IOAPIC_LIST_LEN and ISO_LIST_LEN of them.
abbrev pub no_acpi : Acpi
no_acpi = record { ioapic_list = replicate 32 0; iso_list = replicate 128 0; hpet = 0; mcfg = 0 }

-- The loop of add_ioapic and add_iso: the first NULL entry takes the pointer; a full array does not
-- change.
unfoldable pub add_slot : List ℕ → ℕ → List ℕ
add_slot [] p = []
add_slot (x ∷ xs) p = if x == 0 then p ∷ xs else x ∷ add_slot xs p

unfoldable pub add_ioapic : Acpi → ℕ → Acpi
unfolding add_slot
add_ioapic s p = record {
  ioapic_list = add_slot s.ioapic_list p;
  iso_list = s.iso_list;
  hpet = s.hpet;
  mcfg = s.mcfg;
}

unfoldable pub add_iso : Acpi → ℕ → Acpi
unfolding add_slot
add_iso s p = record {
  ioapic_list = s.ioapic_list;
  iso_list = add_slot s.iso_list p;
  hpet = s.hpet;
  mcfg = s.mcfg;
}

-- The structure at pICLItem: ICS_ID_IO_APIC is 1, ICS_ID_ISO is 2.
unfoldable pub add_structure : Ram → Acpi → ℕ → Acpi
unfolding add_ioapic add_iso
add_structure m s item =
    if m item == 1 then add_ioapic s item else if m item == 2 then add_iso s item else s

-- The do-while of _parse_madt, with the offset of pICLItem from pICLStart. The length byte is a
-- `char`, so that 128 and more are negative, and end the walk as 0 does.
unfoldable pub walk_structures : ℕ → Ram → ℕ → ℕ → ℕ → Acpi → Acpi
unfolding add_structure
walk_structures zero m start length offset s = s
walk_structures (suc fuel) m start length offset s =
    let s' = add_structure m s (start + offset) in
    let size = m (start + offset + 1) in
    let rest = walk_structures fuel m start length (offset + size) s' in
    if size == 0 || leb 128 size then s' else if ltb (offset + size) length then rest else s'

-- sizeof(struct madt) is 44, and the length of the whole table is at byte 4.
unfoldable pub parse_madt : Ram → ℕ → Acpi → Acpi
unfolding walk_structures
parse_madt m desc s =
    let length = word32 m (desc + 4) in walk_structures (length + 1) m (desc + 44) length 0 s

-- memcmp(desc->signature, literal, 4) == 0
unfoldable pub signature_is : Ram → ℕ → ℕ → ℕ → ℕ → ℕ → Bool
signature_is m desc a b c d =
    m desc == a && m (desc + 1) == b && m (desc + 2) == c && m (desc + 3) == d

-- One round of the loop of acpi_init.
unfoldable pub table_found : Ram → ℕ → Acpi → Acpi
unfolding signature_is parse_madt
table_found m desc s =
    let madt = parse_madt m desc s in
    if signature_is m desc b'H' b'P' b'E' b'T'
    then record { ioapic_list = s.ioapic_list; iso_list = s.iso_list; hpet = desc; mcfg = s.mcfg }
    else if signature_is m desc b'A' b'P' b'I' b'C'
    then madt
    else if signature_is m desc b'M' b'C' b'F' b'G'
    then record { ioapic_list = s.ioapic_list; iso_list = s.iso_list; hpet = s.hpet; mcfg = desc }
    else s

-- Entry i of the XSDT or the RSDT, which start at byte 36, as an address of the higher half.
unfoldable pub table_entry_at : Bool → Ram → ℕ → ℕ → ℕ → ℕ
table_entry_at xsdt_enabled m higher_half sdt i = u64 (
    (if xsdt_enabled then word64 m (sdt + 36 + i * 8) else word32 m (sdt + 36 + i * 4))
    + higher_half)

unfoldable pub walk_tables : ℕ → Bool → Ram → ℕ → ℕ → ℕ → Acpi → Acpi
unfolding table_found table_entry_at
walk_tables zero xsdt_enabled m higher_half sdt i s = s
walk_tables (suc left) xsdt_enabled m higher_half sdt i s =
    walk_tables left xsdt_enabled m higher_half sdt (i + 1)
      (table_found m (table_entry_at xsdt_enabled m higher_half sdt i) s)

-- acpi_init; the revision of the RSDP is at byte 15, the address of the RSDT at 16, of the XSDT at
-- 24. Without an MCFG table it stops the CPU.
unfoldable pub acpi_init : Ram → ℕ → ℕ → Acpi → Outcome Acpi ℕ
unfolding walk_tables
acpi_init m higher_half rsdp s =
    let xsdt_enabled = leb 2 (m (rsdp + 15)) in
    let sdt =
      u64 ((if xsdt_enabled then word64 m (rsdp + 24) else word32 m (rsdp + 16)) + higher_half) in
    let entries_size = u32 (word32 m (sdt + 4) + 2 ^ 32 - 36) in
    let entry_size = if xsdt_enabled then entries_size / 8 else entries_size / 4 in
    let s' = walk_tables entry_size xsdt_enabled m higher_half sdt 0 s in
    if s'.mcfg == 0 then halts s' else returns s' entry_size
