-- ===== src/Lapic.antt =====
-- src/lapic.c and cpu_init of src/cpu.c: the local APIC. Its registers, of 32 bits, stand at their
-- addresses in `device`; what the timer's count reads after the wait is a parameter.
pub mod Timer
mod Tests
use bloreos.Base.{
  ℕ, zero, suc, ◌+◌, ◌-◌, ◌*◌, ◌/◌, ◌^◌, Bool, true, false, Option, some, none, if◌then◌else◌,
  update, u32, u64, bit_and, bit_or, ◌>>=◌,
}
use bloreos.Hpet.{Hpet, hpet_sleep_counter}

-- The globals, the registers by address, and the interrupt flag of the CPU.
pub record Lapic : Type 0 where
  pub apic_base : ℕ
  pub lapic_id : ℕ
  pub vmm_higher_half_offset : ℕ
  pub device : ℕ → ℕ
  pub interrupts : Bool

abbrev pub lapic_apicid : ℕ
lapic_apicid = 0x20

abbrev pub lapic_eoi_reg : ℕ
lapic_eoi_reg = 0x0b0

abbrev pub lapic_spurious : ℕ
lapic_spurious = 0x0f0

abbrev pub lapic_icrl : ℕ
lapic_icrl = 0x300

abbrev pub lapic_icrh : ℕ
lapic_icrh = 0x310

abbrev pub lapic_lvt_tmr : ℕ
lapic_lvt_tmr = 0x320

abbrev pub lapic_tmrinitcnt : ℕ
lapic_tmrinitcnt = 0x380

abbrev pub lapic_tmrcurrcnt : ℕ
lapic_tmrcurrcnt = 0x390

abbrev pub lapic_tmrdiv : ℕ
lapic_tmrdiv = 0x3e0

abbrev pub lapic_disable : ℕ
lapic_disable = 0x10000

abbrev pub lapic_sw_enable : ℕ
lapic_sw_enable = 0x100

abbrev pub tmr_periodc : ℕ
tmr_periodc = 0x20000

abbrev pub lapictmr_vector : ℕ
lapictmr_vector = 35

unfoldable pub lapic_reg : Lapic → ℕ → ℕ
lapic_reg l offset = u64 (l.vmm_higher_half_offset + l.apic_base + offset)

unfoldable pub lapic_read : Lapic → ℕ → ℕ
lapic_read l offset = l.device (lapic_reg l offset)

unfoldable pub lapic_write : ℕ → ℕ → Lapic → Lapic
lapic_write offset val l = record l { device = update l.device (lapic_reg l offset) (u32 val) }

unfoldable pub lapic_time_stop : Lapic → Lapic
lapic_time_stop l = lapic_write lapic_lvt_tmr lapic_disable (lapic_write lapic_tmrinitcnt 0 l)

-- lapic_timer_init up to the wait.
unfoldable pub start_count : Lapic → Lapic
start_count l =
    lapic_write lapic_tmrinitcnt 0xffffffff (lapic_time_stop (lapic_write lapic_tmrdiv 0 l))

-- 0xFFFFFFFF - lapic_read(LAPIC_TMRCURRCNT)
unfoldable pub ticks_in_100ms : ℕ → ℕ
ticks_in_100ms current = u32 (0xffffffff + 2 ^ 32 - u32 current)

-- lapic_timer_init after the wait, for a count that reads `current`.
unfoldable pub start_timer : ℕ → Lapic → Lapic
start_timer current l =
    lapic_write lapic_lvt_tmr (bit_or lapictmr_vector tmr_periodc)
      (lapic_write lapic_tmrinitcnt (ticks_in_100ms current * 10) (lapic_time_stop l))

unfoldable pub lapic_timer_init : ℕ → (ℕ → ℕ) → ℕ → Hpet → Lapic → Option (Hpet × Lapic)
lapic_timer_init left readings current h l =
    let started = start_count l in
    hpet_sleep_counter left readings 100 h >>= λ slept. some (slept.1, start_timer current started)

-- set_interrupt_state of src/include/cpu.h; the state before is the old value of the field.
unfoldable pub set_interrupt_state : Bool → Lapic → Lapic
set_interrupt_state enabled l = record l { interrupts = enabled }

-- lapic_init up to the timer; `msr` is what IA32_APIC_BASE_MSR reads.
unfoldable pub enable_lapic : ℕ → Lapic → Lapic
enable_lapic msr l =
    let based = record l { apic_base = bit_and msr 0xfffff000; interrupts = false } in
    let named = record based { lapic_id = lapic_read based lapic_apicid } in
    lapic_write lapic_spurious
      (bit_or (bit_or (lapic_read named lapic_spurious) 0xff) lapic_sw_enable) named

unfoldable pub lapic_init : ℕ → (ℕ → ℕ) → ℕ → ℕ → Hpet → Lapic → Option (Hpet × Lapic)
lapic_init left readings current msr h l =
    lapic_timer_init left readings current h (enable_lapic msr l) >>= λ both.
    some (both.0, set_interrupt_state l.interrupts both.1)

unfoldable pub lapic_raiseint : ℕ → ℕ → Lapic → Lapic
lapic_raiseint lapic_id vector l =
    lapic_write lapic_icrl vector (lapic_write lapic_icrh (u32 (lapic_id * 2 ^ 24)) l)

unfoldable pub lapic_eoi : Lapic → Lapic
lapic_eoi l = lapic_write lapic_eoi_reg 0 l
