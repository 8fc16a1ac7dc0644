-- ===== src/Lapic/Timer.antt =====
-- How src/lapic.c leaves the timer.
use bloreos.Hpet.{Hpet}
use bloreos.Lapic.{Lapic}
