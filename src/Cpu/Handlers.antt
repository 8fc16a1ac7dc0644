-- ===== src/Cpu/Handlers.antt =====
-- src/isr_ps2.S and src/isr_faults.S: what runs before and after the C code of a handler, and before
-- that of a fault. The C code leaves the stack as it finds it, and may leave anything in the registers.
use bloreos.Base.{ℕ, ◌<◌, ◌^◌, ◌≡◌, ◌≢◌, refl, List, [], ◌∷◌, some, update, u16, arith}
use bloreos.Cpu.{
  Machine, Instr, push, pop, mov_from, mov_to, cld, mov_number, es, ds, df, step, run,
}
use bloreos.Cpu.Saved.{saved_words, restored_regs, restored_lem}

-- ISR_Handler_PS2 up to the call of _handle_keyboard.
unfoldable pub ps2_entry : List Instr
ps2_entry =
    push 15
    ∷ push 14
    ∷ push 13
    ∷ push 12
    ∷ push 11
    ∷ push 10
    ∷ push 9
    ∷ push 8
    ∷ push 5
    ∷ push 7
    ∷ push 6
    ∷ push 2
    ∷ push 1
    ∷ push 3
    ∷ push 0
    ∷ mov_from es 0
    ∷ push 0
    ∷ mov_from ds 0
    ∷ push 0
    ∷ cld
    ∷ []

-- From the call up to iretq.
unfoldable pub ps2_exit : List Instr
ps2_exit =
    pop 0
    ∷ mov_to 0 ds
    ∷ pop 0
    ∷ mov_to 0 es
    ∷ pop 0
    ∷ pop 3
    ∷ pop 1
    ∷ pop 2
    ∷ pop 6
    ∷ pop 7
    ∷ pop 5
    ∷ pop 8
    ∷ pop 9
    ∷ pop 10
    ∷ pop 11
    ∷ pop 12
    ∷ pop 13
    ∷ pop 14
    ∷ pop 15
    ∷ []

-- THUNK num up to the call of _handle_fault, after which it stops; rdi is register 7.
unfoldable pub interrupt_thunk : ℕ → List Instr
interrupt_thunk num = mov_number num 7 ∷ cld ∷ []

-- The keyboard's handler calls the C code with the direction flag clear, and after it, whatever it left
-- in the registers, brings back every register but the stack pointer and leaves on the stack exactly
-- the frame that iretq pops.
pub ps2_exit-ps2_entry :
    (m : Machine) (scratch : ℕ → ℕ)
    → m.regs es < 2 ^ 16
    → m.regs ds < 2 ^ 16
    → (saved : Machine) × (restored : Machine) × (run ps2_entry m ≡ some saved)
      × (saved.regs df ≡ 0)
      × (run ps2_exit (record saved { regs = scratch }) ≡ some restored)
      × (restored.stack ≡ m.stack)
      × ((r : ℕ) → r < 18 → r ≢ 4 → restored.regs r ≡ m.regs r)
unfolding run step ps2_entry ps2_exit
ps2_exit-ps2_entry m scratch segment data_segment = (
  record {
    regs = update (update (update m.regs 0 (u16 (m.regs es))) 0 (u16 (m.regs ds))) df 0;
    stack = saved_words m.regs m.stack;
  },
  record { regs = restored_regs m.regs scratch; stack = m.stack },
  refl,
  refl,
  refl,
  refl,
  λ r small other. restored_lem m.regs scratch r segment data_segment small other,
)

-- The code of a fault hands the number of the vector to _handle_fault, with the direction flag clear,
-- and leaves the stack and the other registers alone.
pub interrupt_thunk-vector :
    (num : ℕ) (m : Machine)
    → (m' : Machine) × (run (interrupt_thunk num) m ≡ some m')
      × (m'.regs 7 ≡ num)
      × (m'.regs df ≡ 0)
      × (m'.stack ≡ m.stack)
      × ((r : ℕ) → r ≢ 7 → r ≢ df → m'.regs r ≡ m.regs r)
unfolding run step interrupt_thunk
interrupt_thunk-vector num m = (
  record m { regs = update (update m.regs 7 num) df 0 },
  refl,
  refl,
  refl,
  refl,
  λ r other flag. ground arith,
)
