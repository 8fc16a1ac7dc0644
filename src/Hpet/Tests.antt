-- ===== src/Hpet/Tests.antt =====
-- A timer whose ticks take 100 nanoseconds, at address 65536.
use bloreos.Base.{◌+◌, ◌*◌, ◌^◌, ◌≤◌, ◌≡◌, ◌==◌, if◌then◌else◌, arith, u64}
use bloreos.Atomic.{returns}
use bloreos.Hpet.{Hpet, hpet_start, hpet_one_shot, timer_comparator_reg}
use bloreos.Hpet.Period.{period, hpet_one_shot-bounds}

abbrev slow_timer : Hpet
slow_timer = record {
  base_addr = 0;
  frequency = 0;
  ticks = 0;
  device = λ a. if a == 65536 then 100000000 * 2 ^ 32 else 0;
}

hpet_one_shot-bounds_example :
    (started : Hpet) × (hpet_start 65536 0 slow_timer ≡ returns started tt)
    × (((hpet_one_shot 50 started).device (timer_comparator_reg started 0)
            * period slow_timer (u64 (65536 + 0))
          ≤ 1000000000000 * 50)
        × (1000000000000 * 50
            ≤ (hpet_one_shot 50 started).device (timer_comparator_reg started 0)
                * period slow_timer (u64 (65536 + 0))
              + period slow_timer (u64 (65536 + 0)) * 50))
hpet_one_shot-bounds_example =
    hpet_one_shot-bounds 65536 0 50 slow_timer (omega arith) (omega arith)
