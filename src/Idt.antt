-- ===== src/Idt.antt =====
-- src/idt.c and src/include/idt.h: the gates of the interrupt descriptor table, and the interrupt
-- handlers' effect on the kernel's counters. The handlers' addresses are arguments.
pub mod Gates
pub mod Faults
mod Tests
use bloreos.Base.{
  ℕ, zero, suc, ◌+◌, ◌-◌, ◌*◌, ◌^◌, ◌==◌, if◌then◌else◌, List, [], ◌∷◌, Bool, true, false, update,
  ◌>>>◌, u8, u16, u32, u64,
}

-- TIMER_VECTOR, KEYBOARD_VECTOR, LAPICTMR_VECTOR
abbrev pub timer_vector : ℕ
timer_vector = 32

abbrev pub keyboard_vector : ℕ
keyboard_vector = 33

abbrev pub lapictmr_vector : ℕ
lapictmr_vector = 35

-- PRIVELEGE_RING0
abbrev pub privelege_ring0 : ℕ
privelege_ring0 = 0x8e

-- `struct idt_entry`
pub record IdtEntry : Type 0 where
  pub base_low : ℕ
  pub selector : ℕ
  pub ist : ℕ
  pub flags : ℕ
  pub base_mid : ℕ
  pub base_high : ℕ
  pub reserved : ℕ

abbrev pub Idt : Type 0
Idt = ℕ → IdtEntry

-- What memset leaves in an entry.
abbrev pub cleared : IdtEntry
cleared = record {
  base_low = 0;
  selector = 0;
  ist = 0;
  flags = 0;
  base_mid = 0;
  base_high = 0;
  reserved = 0;
}

abbrev pub gate : ℕ → ℕ → IdtEntry
gate ihandler flags = record {
  base_low = u16 ihandler;
  base_mid = u16 (ihandler >>> 16);
  base_high = u32 (ihandler >>> 32);
  selector = 0x08;
  flags = flags;
  ist = 0;
  reserved = 0;
}

unfoldable pub idt_set_gate : Idt → ℕ → ℕ → ℕ → Idt
idt_set_gate idt vector handler flags = update idt vector (gate handler flags)

-- for (i = 0; i < 32; i++), with `left` rounds to go
unfoldable pub fault_gates : Idt → (ℕ → ℕ) → ℕ → ℕ → Idt
unfolding idt_set_gate
fault_gates idt isr_thunks zero i = idt
fault_gates idt isr_thunks (suc left) i =
    fault_gates (idt_set_gate idt i (isr_thunks i) privelege_ring0) isr_thunks left (i + 1)

-- `idt_init`, before it loads the table.
unfoldable pub idt_init : (ℕ → ℕ) → ℕ → ℕ → ℕ → Idt
unfolding idt_set_gate
idt_init isr_thunks handle_timer isr_ps2 handle_lapic_timer =
    idt_set_gate
      (idt_set_gate
        (idt_set_gate (fault_gates (λ v. cleared) isr_thunks 32 0) timer_vector handle_timer
          privelege_ring0)
        keyboard_vector isr_ps2 privelege_ring0)
      lapictmr_vector handle_lapic_timer privelege_ring0

-- `idtp.limit`: 256 entries of 16 bytes, less one.
abbrev pub idt_limit : ℕ
idt_limit = 16 * 256 - 1
