-- ===== src/Ioapic.antt =====
-- src/ioapic.c: the redirection of interrupts. The I/O APICs are those that the walk over the ACPI
-- tables has listed; what IOWIN reads for their version register is a parameter.
pub mod Route
mod Tests
use bloreos.Base.{
  ℕ, zero, suc, ◌+◌, ◌-◌, ◌*◌, ◌/◌, ◌%◌, ◌^◌, Bool, true, false, ◌&&◌, not, List, [], ◌∷◌, Ram, ltb,
  leb, ◌==◌, if◌then◌else◌, u8, u32, u64, bit_and, bit_or, Option, none, some,
}
use bloreos.Atomic.{Outcome, returns, faults}
use bloreos.Acpi.{Acpi, word16, word32}

-- A write of a register: the I/O APIC, the offset that IOREGSEL takes, the word that IOWIN takes.
pub record Write : Type 0 where
  pub ioapic : ℕ
  pub offset : ℕ
  pub value : ℕ

-- The version registers, by the I/O APIC, and the writes, the last first.
pub record Ioapics : Type 0 where
  pub version : ℕ → ℕ
  pub writes : List Write

-- offset is a uint8_t, the value a uint32_t.
unfoldable pub ioapic_write : Ioapics → ℕ → ℕ → ℕ → Ioapics
ioapic_write s p offset val = record {
  version = s.version;
  writes = record { ioapic = p; offset = u8 offset; value = u32 val } ∷ s.writes;
}

unfoldable pub ioapic_max_gsi : Ioapics → ℕ → ℕ
ioapic_max_gsi s p = bit_and (s.version p) 0xff0000 / 2 ^ 16

-- The base is at byte 8 of the structure. The sum is of 64 bits.
unfoldable pub manages : Ram → Ioapics → ℕ → ℕ → Bool
unfolding ioapic_max_gsi
manages m s gsi p =
    let base = word32 m (p + 8) in leb base gsi && ltb gsi (base + ioapic_max_gsi s p)

-- _get_ioapic_from_gsi over ioapic_list; NULL, which is 0, ends the list.
unfoldable pub get_ioapic_from_gsi : Ram → Ioapics → List ℕ → ℕ → ℕ
unfolding manages
get_ioapic_from_gsi m s [] gsi = 0
get_ioapic_from_gsi m s (p ∷ ps) gsi =
    let rest = get_ioapic_from_gsi m s ps gsi in
    if p == 0 then 0 else if manages m s gsi p then p else rest

-- The entry of the redirect table: bit 1 of the flags is the polarity, bit 3 the trigger.
unfoldable pub redirect_entry : ℕ → ℕ → ℕ → Bool → ℕ
redirect_entry lapic_id vector flags status =
    let polarity = if bit_and flags 2 == 0 then vector else bit_or vector (2 ^ 13) in
    let trigger = if bit_and flags 8 == 0 then polarity else bit_or polarity (2 ^ 15) in
    let masked = if status then trigger else bit_or trigger (2 ^ 16) in
    bit_or masked (u64 (lapic_id * 2 ^ 56))

-- _ioapic_redirect_gsi. gsi is a uint8_t. A GSI that no I/O APIC manages reads the base of NULL.
unfoldable pub ioapic_redirect_gsi : Ram → Acpi → Ioapics → ℕ → ℕ → ℕ → ℕ → Bool → Outcome Ioapics ℕ
unfolding get_ioapic_from_gsi redirect_entry ioapic_write
ioapic_redirect_gsi m acpi s lapic_id vector gsi flags status =
    let p = get_ioapic_from_gsi m s acpi.ioapic_list (u8 gsi) in
    let redirect = redirect_entry lapic_id vector flags status in
    let reg = u32 ((u8 gsi - word32 m (p + 8)) * 2 + 16) in
    let low = ioapic_write s p reg redirect in
    if p == 0 then faults else returns (ioapic_write low p (reg + 1) (redirect / 2 ^ 32)) 0

-- The loop of ioapic_redirect_irq: the first override of the IRQ; its source is at byte 3. NULL ends
-- the list.
unfoldable pub find_override : Ram → List ℕ → ℕ → Option ℕ
find_override m [] irq = none
find_override m (p ∷ ps) irq =
    let rest = find_override m ps irq in
    if p == 0 then none else if irq == m (p + 3) then some p else rest

-- The GSI of an override is at byte 4, its flags at byte 8.
unfoldable pub redirect_by : Ram → Acpi → Ioapics → ℕ → ℕ → ℕ → Bool → Option ℕ → Outcome Ioapics ℕ
unfolding ioapic_redirect_gsi
redirect_by m acpi s lapic_id vector irq status none =
    ioapic_redirect_gsi m acpi s lapic_id vector irq 0 status
redirect_by m acpi s lapic_id vector irq status (some p) =
    ioapic_redirect_gsi m acpi s lapic_id vector (word32 m (p + 4)) (word16 m (p + 8)) status

unfoldable pub ioapic_redirect_irq : Ram → Acpi → Ioapics → ℕ → ℕ → ℕ → Bool → Outcome Ioapics ℕ
unfolding redirect_by find_override
ioapic_redirect_irq m acpi s lapic_id vector irq status =
    redirect_by m acpi s lapic_id vector irq status (find_override m acpi.iso_list irq)
