-- ===== src/Lapic/Tests.antt =====
-- A local APIC whose timer has counted 1000 ticks when the HPET's counter reaches 100 milliseconds, at
-- the third reading.
use bloreos.Base.{ℕ, ◌*◌, true}
use bloreos.Hpet.{Hpet}
use bloreos.Lapic.{Lapic}

abbrev ten_megahertz : Hpet
ten_megahertz = record { base_addr = 65536; frequency = 10000000; ticks = 0; device = λ a. 0 }

abbrev local : Lapic
local = record {
  apic_base = 0;
  lapic_id = 0;
  vmm_higher_half_offset = 0;
  device = λ a. 0;
  interrupts = true;
}

abbrev readings : ℕ → ℕ
readings i = i * 500000
