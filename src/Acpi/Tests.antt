-- ===== src/Acpi/Tests.antt =====
-- A MADT with one I/O APIC in it.
use bloreos.Acpi.Layout.{
  ioapic, iso, hpet, field, entry_by_fields, init_by_fields, acpi_init-fields,
}
use bloreos.Base.{Bool, ◌&&◌, leb, ltb, ℕ, some, ◌+◌, ◌≡◌, Ram, if◌then◌else◌, ◌==◌, arith}
use bloreos.Hpet.{table_address}
use bloreos.Ioapic.{Ioapics, ioapic_max_gsi, manages, ioapic_redirect_gsi, redirect_by}
use bloreos.Acpi.{acpi_init, table_entry_at, parse_madt, walk_structures, no_acpi, word32}
use bloreos.Acpi.Slots.{parse_madt-ends}

-- The table at address 0: its length is 56, an I/O APIC of twelve bytes starts at 44.
abbrev madt : Ram
madt a = if a == 4 then 56 else if a == 44 then 1 else if a == 45 then 12 else 0

parse_madt-ends_example :
    walk_structures 100 madt (0 + 44) (word32 madt (0 + 4)) 0 no_acpi ≡ parse_madt madt 0 no_acpi
parse_madt-ends_example = parse_madt-ends 100 madt 0 no_acpi (omega arith)

init_fields :
    (acpi_init madt 0 8 no_acpi ≡ init_by_fields madt 0 8 no_acpi)
    × ((enabled : Bool) (i : ℕ)
        → table_entry_at enabled madt 0 8 i ≡ entry_by_fields enabled madt 0 8 i)
    × (table_address madt 8 ≡ field hpet madt 8 16)
    × ((o : Ioapics) (gsi : ℕ)
        → manages madt o gsi 8 ≡ (
            leb (field ioapic madt 8 5) gsi
            && ltb gsi (field ioapic madt 8 5 + ioapic_max_gsi o 8)))
    × ((o : Ioapics) (lapic_id vector irq : ℕ) (status : Bool)
        → redirect_by madt no_acpi o lapic_id vector irq status (some 8)
          ≡ ioapic_redirect_gsi madt no_acpi o lapic_id vector
              (field iso madt 8 4)
              (field iso madt 8 5)
              status)
init_fields = acpi_init-fields madt 0 8 no_acpi
