-- ===== src/Hpet.antt =====
-- src/hpet.c: the high precision event timer. Its registers, of 64 bits, stand at their addresses in
-- `device`; what the main counter reads while it counts, and whether the interrupt of the timer
-- arrives, is the device's, and a parameter.
pub mod Sleep
pub mod Period
mod Tests
use bloreos.Base.{
  ℕ, zero, suc, ◌+◌, ◌-◌, ◌*◌, ◌/◌, ◌%◌, ◌^◌, Bool, true, false, Option, some, none, ltb, ◌==◌,
  if◌then◌else◌, Ram, update, u32, u64, bit_and, bit_or, get_bytes, ◌>>=◌,
}
use bloreos.Atomic.{Outcome, returns, spins, halts, faults}
use bloreos.Acpi.{Acpi}
use bloreos.Ioapic.{Ioapics, ioapic_redirect_irq}

abbrev pub femtosecs_per_sec : ℕ
femtosecs_per_sec = 1000000000000000

-- The globals, and the registers by address.
pub record Hpet : Type 0 where
  pub base_addr : ℕ
  pub frequency : ℕ
  pub ticks : ℕ
  pub device : ℕ → ℕ

-- The fields of struct hpet_regs, and HPET_REG_MAIN_COUNTER.
abbrev pub capabilities_at : Hpet → ℕ
capabilities_at h = h.base_addr

abbrev pub config_at : Hpet → ℕ
config_at h = h.base_addr + 0x10

abbrev pub interrupt_status_at : Hpet → ℕ
interrupt_status_at h = h.base_addr + 0x20

abbrev pub main_counter_at : Hpet → ℕ
main_counter_at h = h.base_addr + 0x0f0

unfoldable pub timer_config_reg : Hpet → ℕ → ℕ
timer_config_reg h n = h.base_addr + u32 (0x100 + 0x20 * n)

unfoldable pub timer_comparator_reg : Hpet → ℕ → ℕ
timer_comparator_reg h n = h.base_addr + u32 (0x108 + 0x20 * n)

unfoldable pub hpet_read : Hpet → ℕ → ℕ
hpet_read h offset = h.device (h.base_addr + offset)

unfoldable pub hpet_write : ℕ → ℕ → Hpet → Hpet
hpet_write offset val h = record h { device = update h.device (h.base_addr + offset) (u64 val) }

-- *reg = val
abbrev pub store : ℕ → ℕ → Hpet → Hpet
store reg val h = record h { device = update h.device reg (u64 val) }

-- *reg |= bits
abbrev pub set_bits : ℕ → ℕ → Hpet → Hpet
set_bits reg bits h = store reg (bit_or (h.device reg) bits) h

-- *reg &= ~bits, on 64 bits
abbrev pub clear_bits : ℕ → ℕ → Hpet → Hpet
clear_bits reg bits h = store reg (bit_and (h.device reg) (2 ^ 64 - 1 - bits)) h

unfoldable pub hpet_disable : Hpet → Hpet
hpet_disable h = clear_bits (config_at h) 1 h

unfoldable pub hpet_enable : Hpet → Hpet
hpet_enable h = set_bits (config_at h) 1 h

unfoldable pub hpet_reset : Hpet → Hpet
unfolding hpet_disable
hpet_reset h = let stopped = hpet_disable h in record stopped { ticks = 0 }

unfoldable pub hpet_ack : Hpet → Hpet
hpet_ack h = clear_bits (interrupt_status_at h) 1 h

unfoldable pub hpet_isr : Hpet → Hpet
hpet_isr h = record h { ticks = u64 (h.ticks + 1) }

-- The number of ticks in so many milliseconds.
unfoldable pub ticks_for : Hpet → ℕ → ℕ
ticks_for h ms = u64 (h.frequency / 1000 * ms)

unfoldable pub hpet_one_shot : ℕ → Hpet → Hpet
unfolding hpet_reset hpet_enable timer_config_reg timer_comparator_reg ticks_for
hpet_one_shot ms h =
    let zeroed = store (main_counter_at h) 0 (hpet_reset h) in
    let once = clear_bits (timer_config_reg h 0) 8 zeroed in
    let timed = store (timer_comparator_reg h 0) (ticks_for h ms) once in
    hpet_enable (set_bits (timer_config_reg h 0) 4 timed)

-- hpet_sleep; `interrupted` tells whether the interrupt of the timer arrives, which ends the loop.
unfoldable pub hpet_sleep : ℕ → Bool → Hpet → Option Hpet
unfolding hpet_one_shot hpet_isr hpet_disable
hpet_sleep ms interrupted h =
    if interrupted then some (hpet_disable (hpet_isr (hpet_one_shot ms h))) else none

-- `while (*hpet_main_counter < limit);` where the reading number n of the counter is `readings n`,
-- and `left` more are looked at.
unfoldable pub wait_counter : ℕ → (ℕ → ℕ) → ℕ → ℕ → Option ℕ
wait_counter zero readings limit n = none
wait_counter (suc left) readings limit n =
    let rest = wait_counter left readings limit (n + 1) in
    if ltb (readings n) limit then rest else some n

-- hpet_sleep_counter, and the number of the reading that ended the loop.
unfoldable pub hpet_sleep_counter : ℕ → (ℕ → ℕ) → ℕ → Hpet → Option (ℕ × Hpet)
unfolding hpet_disable hpet_enable timer_config_reg ticks_for
hpet_sleep_counter left readings ms h =
    let quiet = clear_bits (timer_config_reg h 0) 4 (hpet_disable h) in
    let started = hpet_enable (store (main_counter_at h) 0 quiet) in
    wait_counter left readings (ticks_for h ms) 0 >>= λ n. some (n, hpet_disable started)

-- hpet_init up to the redirection: `address` is that of the ACPI table, `offset` the half of the
-- virtual addresses where memory is mapped. A period of zero divides by zero.
unfoldable pub hpet_start : ℕ → ℕ → Hpet → Outcome Hpet (Unit {0})
unfolding timer_config_reg
hpet_start address offset h =
    let based = record h { base_addr = u64 (address + offset) } in
    let tick_period = u32 (h.device (capabilities_at based) / 2 ^ 32) in
    let timed = record based { frequency = femtosecs_per_sec / tick_period } in
    let reg = timer_config_reg based 0 in
    let routed = set_bits reg 0 timed in
    if tick_period == 0 then faults else returns (set_bits reg 4 (set_bits reg 8 routed)) tt

-- The address that the table holds is at byte 44.
abbrev pub table_address : Ram → ℕ → ℕ
table_address m table = get_bytes 8 m (table + 44)

abbrev pub timer_vector : ℕ
timer_vector = 32

-- hpet_init: the redirection of IRQ 0, and the reset of the ticks.
unfoldable pub hpet_init : Ram → Acpi → Ioapics → ℕ → ℕ → Hpet → Outcome (Hpet × Ioapics) (Unit {0})
unfolding hpet_start
hpet_init m acpi s bsp_lapic_id offset h = elim (hpet_start (table_address m acpi.hpet) offset h) [
  | returns started u ↦ elim (ioapic_redirect_irq m acpi s bsp_lapic_id timer_vector 0 true) [
    | returns routed n ↦ returns (record started { ticks = 0 }, routed) tt
    | spins ↦ spins
    | halts stopped ↦ halts (started, stopped)
    | faults ↦ faults
  ]
  | spins ↦ spins
  | halts stopped ↦ halts (stopped, s)
  | faults ↦ faults
]
