-- ===== src/Idt/Tests.antt =====
-- Handlers at some addresses of the higher half.
use bloreos.Base.{ℕ, ◌+◌, ◌^◌, ◌%◌, ◌<◌, arith}
use bloreos.Idt.{idt_init}
use bloreos.Idt.Gates.{Leads, assigned, idt_init-Leads}

abbrev thunk_at : ℕ → ℕ
thunk_at i = 0xffffffff80000000 + i % 256

thunk_at-small : (i : ℕ) → thunk_at i < 2 ^ 64
thunk_at-small i = omega arith

idt_init-Leads_example :
    Leads
      (idt_init thunk_at 0xffffffff80100000 0xffffffff80100100 0xffffffff80100200 33)
      (assigned thunk_at 0xffffffff80100000 0xffffffff80100100 0xffffffff80100200 33)
idt_init-Leads_example =
    idt_init-Leads thunk_at 0xffffffff80100000 0xffffffff80100100 0xffffffff80100200 33
      thunk_at-small (omega arith) (omega arith) (omega arith)
