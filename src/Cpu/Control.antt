-- ===== src/Cpu/Control.antt =====
-- The control registers and the interrupt flag, in src/include/cpu.h, and the short form of cpuid there
-- with its use in src/lapic.c.
use bloreos.Base.{
  ℕ, ◌/◌, ◌^◌, ◌%◌, ◌≡◌, refl, Bool, true, false, not, ◌==◌, if◌then◌else◌, u32, u64, bit_and,
  bit_and_mask, arith, ◌<◌, Bool-cases, inl, inr,
}
use bloreos.Cpu.{Cpuid}

-- Of rflags, bit 9, which allows interrupts.
pub record Control : Type 0 where
  pub cr0 : ℕ
  pub cr3 : ℕ
  pub cr4 : ℕ
  pub interrupts : Bool
  pub idtr : ℕ

unfoldable pub get_cr0 : Control → ℕ
get_cr0 c = c.cr0

unfoldable pub get_cr3 : Control → ℕ
get_cr3 c = c.cr3

unfoldable pub get_cr4 : Control → ℕ
get_cr4 c = c.cr4

unfoldable pub set_cr0 : ℕ → Control → Control
set_cr0 val c = record c { cr0 = u64 val }

unfoldable pub is_paging_enabled : Control → Bool
unfolding get_cr0
is_paging_enabled c = not (bit_and (get_cr0 c) 0x80000000 == 0)

unfoldable pub lidt : ℕ → Control → Control
lidt idt_ptr c = record c { idtr = idt_ptr }

unfoldable pub disable_interrupts : Control → Control
disable_interrupts c = record c { interrupts = false }

unfoldable pub enable_interrupts : Control → Control
enable_interrupts c = record c { interrupts = true }

unfoldable pub interrupt_state : Control → Bool
interrupt_state c = c.interrupts

-- With the state before, which it returns.
unfoldable pub set_interrupt_state : Bool → Control → Bool × Control
unfolding disable_interrupts enable_interrupts interrupt_state
set_interrupt_state enabled c =
    (interrupt_state c, if enabled then enable_interrupts c else disable_interrupts c)

-- The eax and edx of cpuid(code, &a, &d). The constraint "O" of `code` asks for a constant from 0 to
-- 127 and puts it in no register, so that the leaf is the one in eax before, and not `code`.
unfoldable pub cpuid : Cpuid → ℕ → ℕ → ℕ → ℕ × ℕ
cpuid answer eax ecx code = let l = answer (u32 eax) (u32 ecx) in (l.eax, l.edx)

unfoldable pub check_lapic_cpuid : Cpuid → ℕ → ℕ → ℕ
unfolding cpuid
check_lapic_cpuid answer eax ecx = bit_and ((cpuid answer eax ecx 1).1 / 2 ^ 9) 1

unfoldable pub cpu_get_address_widths : Cpuid → ℕ → ℕ
cpu_get_address_widths answer ecx = (answer 0x80000008 (u32 ecx)).eax

-- A part that switches the interrupts off and puts back what set_interrupt_state returned runs without
-- them, and leaves the state as it was, whatever else it did to the registers.
pub set_interrupt_state-restores :
    (c c' : Control)
    → c'.interrupts ≡ (set_interrupt_state false c).1.interrupts
    → let restored = (set_interrupt_state (set_interrupt_state false c).0 c').1 in
      (interrupt_state c' ≡ false)
      × (interrupt_state restored ≡ interrupt_state c)
      × (restored.cr0 ≡ c'.cr0)
      × (restored.idtr ≡ c'.idtr)
unfolding set_interrupt_state
set_interrupt_state-restores c c' off = elim (Bool-cases c.interrupts) [
  | inl on ↦ rw on (off, refl, refl, refl)
  | inr quiet ↦ rw quiet (off, refl, refl, refl)
]

-- What _check_lapic_cpuid gives is bit 9 of the edx of the leaf whose number eax held before.
pub check_lapic_cpuid_lem :
    (answer : Cpuid) (eax ecx : ℕ)
    → eax < 2 ^ 32
    → ecx < 2 ^ 32
    → check_lapic_cpuid answer eax ecx ≡ (answer eax ecx).edx / 2 ^ 9 % 2
unfolding check_lapic_cpuid
check_lapic_cpuid_lem answer eax ecx word level =
    let a : u32 eax ≡ eax = omega (arith, word) in
    let c : u32 ecx ≡ ecx = omega (arith, level) in
    rw (a, c) (bit_and_mask 1 ((answer eax ecx).edx / 2 ^ 9))
