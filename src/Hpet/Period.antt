-- ===== src/Hpet/Period.antt =====
-- The comparator of src/hpet.c, in femtoseconds.
use bloreos.Base.{ℕ, ◌+◌, ◌*◌, ◌/◌, ◌^◌, ◌≤◌, ◌<◌, ◌≡◌, ◌≢◌, refl, false, ◌==◌, arith, u32, u64}
use bloreos.Atomic.{returns}
use bloreos.Hpet.{
  Hpet, femtosecs_per_sec, ticks_for, hpet_start, hpet_one_shot, hpet_reset, hpet_disable,
  hpet_enable, timer_comparator_reg, timer_config_reg, set_bits,
}

-- The length of a tick in femtoseconds, as the device at the address reports it.
abbrev pub period : Hpet → ℕ → ℕ
period h base = u32 (h.device base / 2 ^ 32)

div_mul_le : (n p : ℕ) → n / p * p ≤ n
div_mul_le n p = grind arith

lt_div_mul : (n p : ℕ) → 0 < p → n < (n / p + 1) * p
lt_div_mul n p h = grind arith

comparator_lem :
    (ms : ℕ) (h : Hpet) → (hpet_one_shot ms h).device (timer_comparator_reg h 0) ≡ ticks_for h ms
unfolding hpet_one_shot hpet_reset hpet_disable hpet_enable timer_comparator_reg timer_config_reg
    ticks_for
comparator_lem ms h = ground arith

product_le : (a b p : ℕ) → a ≤ b → a * p ≤ b * p
product_le a b p h = grind arith

-- The ticks of a millisecond: q is a second's, r a thousandth of it.
millisecond :
    (p q r : ℕ)
    → q * p ≤ femtosecs_per_sec
    → femtosecs_per_sec < (q + 1) * p
    → r * 1000 ≤ q
    → q < r * 1000 + 1000
    → (r * p ≤ 1000000000000) × (1000000000000 < (r + 1) * p)
millisecond p q r low high below above =
    let a = product_le (r * 1000) q p below in
    let b = product_le (q + 1) (r * 1000 + 1000) p (omega (arith, above)) in
    let c : r * 1000 * p ≡ 1000 * (r * p) = grind arith in
    let d : (r * 1000 + 1000) * p ≡ 1000 * ((r + 1) * p) = grind arith in
    (omega (arith, a, c), omega (arith, b, d))

scaled :
    (r p ms : ℕ)
    → r * p ≤ 1000000000000
    → 1000000000000 < (r + 1) * p
    → (r * ms * p ≤ 1000000000000 * ms) × (1000000000000 * ms ≤ r * ms * p + p * ms)
scaled r p ms below above =
    let a = product_le (r * p) 1000000000000 ms below in
    let b = product_le 1000000000000 ((r + 1) * p) ms (omega (arith, above)) in
    let c : r * p * ms ≡ r * ms * p = grind arith in
    let d : (r + 1) * p * ms ≡ r * ms * p + p * ms = grind arith in
    (omega (arith, a, c), omega (arith, b, d))

ticks_lem :
    (h : Hpet) (ms : ℕ)
    → h.frequency / 1000 * ms < 2 ^ 64
    → ticks_for h ms ≡ h.frequency / 1000 * ms
unfolding ticks_for
ticks_lem h ms small = omega arith

-- On a device whose ticks have p femtoseconds, p not zero, hpet_init gets to the redirection of the
-- interrupt, and hpet_one_shot then sets the comparator to a number of ticks that take at most the
-- given milliseconds, and at most p femtoseconds per millisecond less, if the number fits 64 bits.
pub hpet_one_shot-bounds :
    (address offset ms : ℕ) (h : Hpet)
    → period h (u64 (address + offset)) ≢ 0
    → femtosecs_per_sec / period h (u64 (address + offset)) / 1000 * ms < 2 ^ 64
    → let p = period h (u64 (address + offset)) in
      (started : Hpet) × (hpet_start address offset h ≡ returns started tt)
      × (let n = (hpet_one_shot ms started).device (timer_comparator_reg started 0) in
          (n * p ≤ 1000000000000 * ms) × (1000000000000 * ms ≤ n * p + p * ms))
unfolding hpet_start
hpet_one_shot-bounds address offset ms h nonzero small =
    let p = period h (u64 (address + offset)) in
    let q = femtosecs_per_sec / p in
    let timed = record h { base_addr = u64 (address + offset); frequency = q } in
    let reg = timer_config_reg timed 0 in
    let started = set_bits reg 4 (set_bits reg 8 (set_bits reg 0 timed)) in
    let given : (p == 0) ≡ false = ground (arith, nonzero) in
    let (below, above) =
      millisecond p q (q / 1000) (div_mul_le femtosecs_per_sec p)
        (lt_div_mul femtosecs_per_sec p (omega (arith, nonzero))) (omega arith) (omega arith) in
    (
      started,
      rw given refl,
      rw (comparator_lem ms started, ticks_lem started ms small)
          (scaled (q / 1000) p ms below above),
    )
