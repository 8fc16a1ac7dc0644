-- ===== src/Cpu/Tests.antt =====
-- A machine whose registers hold their own numbers.
use bloreos.Cpu.Handlers.{ps2_entry, ps2_exit, ps2_exit-ps2_entry}
use bloreos.Base.{ℕ, ◌<◌, ◌≡◌, ◌≢◌, refl, [], ◌∷◌, some, arith}
use bloreos.Cpu.{Machine, df, run, isr_save, isr_restore}
use bloreos.Cpu.Saved.{isr_restore-isr_save}

abbrev numbered : Machine
numbered = record { regs = λ r. r; stack = 77 ∷ 78 ∷ [] }

isr_restore-isr_save_example :
    (saved : Machine) × (restored : Machine) × (run isr_save numbered ≡ some saved)
    × (run isr_restore (record saved { regs = λ r. 0 }) ≡ some restored)
    × (restored.stack ≡ 78 ∷ [])
    × ((r : ℕ) → r < 18 → r ≢ 4 → restored.regs r ≡ numbered.regs r)
isr_restore-isr_save_example =
    isr_restore-isr_save numbered (λ r. 0) 77 (78 ∷ []) refl (omega arith) (omega arith)

ps2_exit-ps2_entry_example :
    (saved : Machine) × (restored : Machine) × (run ps2_entry numbered ≡ some saved)
    × (saved.regs df ≡ 0)
    × (run ps2_exit (record saved { regs = λ r. 0 }) ≡ some restored)
    × (restored.stack ≡ 77 ∷ 78 ∷ [])
    × ((r : ℕ) → r < 18 → r ≢ 4 → restored.regs r ≡ numbered.regs r)
ps2_exit-ps2_entry_example = ps2_exit-ps2_entry numbered (λ r. 0) (omega arith) (omega arith)
