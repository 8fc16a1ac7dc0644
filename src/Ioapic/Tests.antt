-- ===== src/Ioapic/Tests.antt =====
-- One I/O APIC at address 64, for the interrupts from 0 on, whose version register reports 23.
use bloreos.Base.{ℕ, List, ◌++◌, ◌+◌, ◌<◌, ◌≡◌, ◌⊎◌, refl, true, [], ◌∷◌, Ram, arith}
use bloreos.Atomic.{returns, faults}
use bloreos.Acpi.{Acpi, word32}
use bloreos.Ioapic.{Ioapics, ioapic_max_gsi, ioapic_redirect_gsi}
use bloreos.Ioapic.Route.{
  none_covers, covers, redirected, ioapic_redirect_gsi_lem, ioapic_redirect_last,
}

abbrev zeros : Ram
zeros a = 0

abbrev one_ioapic : Acpi
one_ioapic = record { ioapic_list = 64 ∷ 0 ∷ []; iso_list = []; hpet = 0; mcfg = 1 }

abbrev lines_24 : Ioapics
lines_24 = record { version = λ p. 0x170020; writes = [] }

ioapic_redirect_gsi_lem_example :
    ((none_covers zeros lines_24 1 (64 ∷ []) ≡ true)
      × (ioapic_redirect_gsi zeros one_ioapic lines_24 2 33 1 10 true ≡ faults))
    ⊎ ((p : ℕ) × (before : List ℕ) × (after : List ℕ) × (64 ∷ [] ≡ before ++ (p ∷ after))
        × (none_covers zeros lines_24 1 before ≡ true)
        × (covers zeros lines_24 1 p ≡ true)
        × (ioapic_redirect_gsi zeros one_ioapic lines_24 2 33 1 10 true
            ≡ returns (redirected zeros lines_24 p 2 33 1 10 true) 0))
ioapic_redirect_gsi_lem_example =
    ioapic_redirect_gsi_lem zeros one_ioapic lines_24 2 33 1 10 true (omega arith) (omega arith)

few_lines : word32 zeros (64 + 8) + ioapic_max_gsi lines_24 64 < 256
unfolding ioapic_max_gsi
few_lines = omega arith

line_24 :
    ioapic_redirect_gsi zeros one_ioapic lines_24 2 33
      (word32 zeros (64 + 8) + ioapic_max_gsi lines_24 64)
      0
      true
    ≡ faults
line_24 = ioapic_redirect_last zeros one_ioapic lines_24 64 2 33 0 true refl few_lines
