-- ===== src/Idt/Gates.antt =====
-- Which handler each vector leads to.
use bloreos.Base.{
  ℕ, zero, suc, ◌+◌, ◌*◌, ◌<◌, ◌^◌, ◌≡◌, refl, ◌&&◌, Option, none, some, arith, ltb, leb, ◌==◌,
  if◌then◌else◌, Bool-cases, inl, inr,
}
use bloreos.Idt.{IdtEntry, Idt, cleared, gate, idt_set_gate, fault_gates, idt_init, privelege_ring0}

-- The address that the processor jumps to.
abbrev pub handler : IdtEntry → ℕ
handler e = e.base_low + e.base_mid * 2 ^ 16 + e.base_high * 2 ^ 32

-- The handler that a vector is meant to have, if any.
abbrev pub assigned : (ℕ → ℕ) → ℕ → ℕ → ℕ → ℕ → Option ℕ
assigned isr_thunks timer ps2 lapic v =
    if ltb v 32
    then some (isr_thunks v)
    else if v == 32
    then some timer
    else if v == 33
    then some ps2
    else if v == 35
    then some lapic
    else none

-- An interrupt gate of ring 0, in the code segment, that leads to the address; or no gate.
abbrev pub Leads : IdtEntry → Option ℕ → Type 0
Leads e none = e ≡ cleared
Leads e (some a) =
    (handler e ≡ a) × (e.flags ≡ 0x8e) × (e.selector ≡ 8) × (e.ist ≡ 0) × (e.reserved ≡ 0)

fault_gates_lem :
    (left i : ℕ) (idt : Idt) (thunks : ℕ → ℕ) (v : ℕ)
    → fault_gates idt thunks left i v
      ≡ (if leb i v && ltb v (i + left) then gate (thunks v) privelege_ring0 else idt v)
unfolding fault_gates idt_set_gate
fault_gates_lem zero i idt thunks v = ground arith
fault_gates_lem (suc left) i idt thunks v =
    ground
      (arith, fault_gates_lem left (i + 1) (idt_set_gate idt i (thunks i) privelege_ring0) thunks v)

gate-Leads : (a : ℕ) → a < 2 ^ 64 → Leads (gate a privelege_ring0) (some a)
gate-Leads a h = (omega arith, refl, refl, refl, refl)

abbrev to_gate : Option ℕ → IdtEntry
to_gate none = cleared
to_gate (some a) = gate a privelege_ring0

idt_init_lem :
    (thunks : ℕ → ℕ) (timer ps2 lapic v : ℕ)
    → idt_init thunks timer ps2 lapic v ≡ to_gate (assigned thunks timer ps2 lapic v)
unfolding idt_init
idt_init_lem thunks timer ps2 lapic v = ground (arith, fault_gates_lem 32 0 (λ v. cleared) thunks v)

-- All the handlers have 64-bit addresses.
abbrev Fits : Option ℕ → Type 0
Fits none = Unit {0}
Fits (some a) = a < 2 ^ 64

assigned-Fits :
    (thunks : ℕ → ℕ) (timer ps2 lapic v : ℕ)
    → thunks v < 2 ^ 64
    → timer < 2 ^ 64
    → ps2 < 2 ^ 64
    → lapic < 2 ^ 64
    → Fits (assigned thunks timer ps2 lapic v)
assigned-Fits thunks timer ps2 lapic v ht h1 h2 h3 = elim (Bool-cases (ltb v 32)) [
  | inl a ↦ rw a ht
  | inr a ↦ rw a (elim (Bool-cases (v == 32)) [
    | inl b ↦ rw b h1
    | inr b ↦ rw b (elim (Bool-cases (v == 33)) [
      | inl c ↦ rw c h2
      | inr c ↦ rw c (elim (Bool-cases (v == 35)) [ inl d ↦ rw d h3 | inr d ↦ rw d tt ])
    ])
  ])
]

to_gate-Leads : (o : Option ℕ) → Fits o → Leads (to_gate o) o
to_gate-Leads none h = refl
to_gate-Leads (some a) h = gate-Leads a h

-- After idt_init, with handlers at 64-bit addresses, the vectors 0 to 31 lead to the fault handlers
-- of their own numbers, 32, 33 and 35 to the handlers of the timer, the keyboard and the LAPIC
-- timer, each through an interrupt gate of ring 0, and every other entry is clear.
pub idt_init-Leads :
    (thunks : ℕ → ℕ) (timer ps2 lapic v : ℕ)
    → ((i : ℕ) → thunks i < 2 ^ 64)
    → timer < 2 ^ 64
    → ps2 < 2 ^ 64
    → lapic < 2 ^ 64
    → Leads (idt_init thunks timer ps2 lapic v) (assigned thunks timer ps2 lapic v)
idt_init-Leads thunks timer ps2 lapic v ht h1 h2 h3 = rw (idt_init_lem thunks timer ps2 lapic v) (
    to_gate-Leads (assigned thunks timer ps2 lapic v)
      (assigned-Fits thunks timer ps2 lapic v (ht v) h1 h2 h3))
