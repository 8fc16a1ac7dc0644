-- ===== src/Cpu/Saved.antt =====
-- What an interrupt's handler finds again, in src/include/cpu.h.
use bloreos.Base.{ℕ, ◌<◌, ◌^◌, ◌≡◌, ◌≢◌, refl, List, [], ◌∷◌, some, arith, update, u16}
use bloreos.Cpu.{Machine, es, ds, run, step, isr_save, isr_restore}

-- What isr_save puts on the stack, and the registers after isr_restore.
abbrev pub saved_words : (ℕ → ℕ) → List ℕ → List ℕ
saved_words r stack =
    u16 (r ds)
    ∷ u16 (r es)
    ∷ r 0
    ∷ r 3
    ∷ r 1
    ∷ r 2
    ∷ r 6
    ∷ r 7
    ∷ r 5
    ∷ r 8
    ∷ r 9
    ∷ r 10
    ∷ r 11
    ∷ r 12
    ∷ r 13
    ∷ r 14
    ∷ r 15
    ∷ stack

abbrev pop_all : List (ℕ × ℕ) → (ℕ → ℕ) → ℕ → ℕ
pop_all [] regs = regs
pop_all ((r, v) ∷ rest) regs = pop_all rest (update regs r v)

abbrev pub restored_regs : (ℕ → ℕ) → (ℕ → ℕ) → ℕ → ℕ
restored_regs r scratch =
    pop_all
      ((0, u16 (r ds))
        ∷ (ds, u16 (u16 (r ds)))
        ∷ (0, u16 (r es))
        ∷ (es, u16 (u16 (r es)))
        ∷ (0, r 0)
        ∷ (3, r 3)
        ∷ (1, r 1)
        ∷ (2, r 2)
        ∷ (6, r 6)
        ∷ (7, r 7)
        ∷ (5, r 5)
        ∷ (8, r 8)
        ∷ (9, r 9)
        ∷ (10, r 10)
        ∷ (11, r 11)
        ∷ (12, r 12)
        ∷ (13, r 13)
        ∷ (14, r 14)
        ∷ (15, r 15)
        ∷ [])
      scratch

pub restored_lem :
    (regs scratch : ℕ → ℕ) (r : ℕ)
    → regs es < 2 ^ 16
    → regs ds < 2 ^ 16
    → r < 18
    → r ≢ 4
    → restored_regs regs scratch r ≡ regs r
restored_lem regs scratch r segment data_segment small other = ground arith

-- After isr_save, and whatever a handler does to the registers while it leaves the stack alone,
-- isr_restore brings back every register but the stack pointer, and takes one word more from the
-- stack than isr_save put there.
pub isr_restore-isr_save :
    (m : Machine) (scratch : ℕ → ℕ) (word : ℕ) (frame : List ℕ)
    → m.stack ≡ word ∷ frame
    → m.regs es < 2 ^ 16
    → m.regs ds < 2 ^ 16
    → (saved : Machine) × (restored : Machine) × (run isr_save m ≡ some saved)
      × (run isr_restore (record saved { regs = scratch }) ≡ some restored)
      × (restored.stack ≡ frame)
      × ((r : ℕ) → r < 18 → r ≢ 4 → restored.regs r ≡ m.regs r)
unfolding run step isr_save isr_restore
isr_restore-isr_save m scratch word frame e segment data_segment = (
  record {
    regs = update (update m.regs 0 (u16 (m.regs es))) 0 (u16 (m.regs ds));
    stack = saved_words m.regs m.stack;
  },
  record { regs = restored_regs m.regs scratch; stack = frame },
  refl,
  rw e refl,
  refl,
  λ r small other. restored_lem m.regs scratch r segment data_segment small other,
)
