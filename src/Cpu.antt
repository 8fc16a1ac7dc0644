-- ===== src/Cpu.antt =====
-- src/include/cpu.h, src/include/cpuid.h and src/cpu.c: the registers that an interrupt saves and
-- restores, and what cpuid and rdmsr report, which are parameters. Of the instructions it models what
-- the assembly uses of them.
pub mod Saved
pub mod Handlers
pub mod Control
pub mod Awake
mod Tests
use bloreos.Base.{
  ℕ, zero, suc, ◌+◌, ◌-◌, ◌*◌, ◌/◌, ◌^◌, Bool, true, false, List, [], ◌∷◌, Option, some, none, ◌==◌,
  if◌then◌else◌, Ram, update, u16, u32, bit_and, bit_or, put_bytes, ◌>>=◌,
}

-- The general registers by their number in the machine's code, then segment registers and a flag. The
-- stack grows at the head of the list.
pub record Machine : Type 0 where
  pub regs : ℕ → ℕ
  pub stack : List ℕ

abbrev pub es : ℕ
es = 16

abbrev pub ds : ℕ
ds = 17

-- The direction flag.
abbrev pub df : ℕ
df = 18

-- push and pop of 64 bits, mov %seg, %e<reg> and mov %e<reg>, %seg, add $8, %rsp, cld, and mov of a
-- number to a register.
pub data Instr : Type 0 where
  push pop : ℕ → Instr
  mov_from mov_to : ℕ → ℕ → Instr
  add_8_rsp : Instr
  cld : Instr
  mov_number : ℕ → ℕ → Instr

-- `none` is a read outside the stack.
unfoldable pub step : Instr → Machine → Option Machine
step (push r) m = some (record m { stack = m.regs r ∷ m.stack })
step (mov_from seg r) m = some (record m { regs = update m.regs r (u16 (m.regs seg)) })
step (mov_to r seg) m = some (record m { regs = update m.regs seg (u16 (m.regs r)) })
step (pop r) m = popped m.stack
  where
    popped : List ℕ → Option Machine
    popped [] = none
    popped (v ∷ rest) = some (record { regs = update m.regs r v; stack = rest })
step cld m = some (record m { regs = update m.regs df 0 })
step (mov_number n r) m = some (record m { regs = update m.regs r n })
step add_8_rsp m = dropped m.stack
  where
    dropped : List ℕ → Option Machine
    dropped [] = none
    dropped (v ∷ rest) = some (record m { stack = rest })

unfoldable pub run : List Instr → Machine → Option Machine
unfolding step
run [] m = some m
run (i ∷ is) m = step i m >>= run is

-- rax 0, rcx 1, rdx 2, rbx 3, rbp 5, rsi 6, rdi 7; r8 to r15 have their own numbers.
unfoldable pub isr_save : List Instr
isr_save =
    push 15
    ∷ push 14
    ∷ push 13
    ∷ push 12
    ∷ push 11
    ∷ push 10
    ∷ push 9
    ∷ push 8
    ∷ push 5
    ∷ push 7
    ∷ push 6
    ∷ push 2
    ∷ push 1
    ∷ push 3
    ∷ push 0
    ∷ mov_from es 0
    ∷ push 0
    ∷ mov_from ds 0
    ∷ push 0
    ∷ []

-- isr_restore up to iretq.
unfoldable pub isr_restore : List Instr
isr_restore =
    pop 0
    ∷ mov_to 0 ds
    ∷ pop 0
    ∷ mov_to 0 es
    ∷ pop 0
    ∷ pop 3
    ∷ pop 1
    ∷ pop 2
    ∷ pop 6
    ∷ pop 7
    ∷ pop 5
    ∷ pop 8
    ∷ pop 9
    ∷ pop 10
    ∷ pop 11
    ∷ pop 12
    ∷ pop 13
    ∷ pop 14
    ∷ pop 15
    ∷ add_8_rsp
    ∷ []

-- (uint64_t) high << 32 | low, for what rdmsr leaves in edx and eax.
unfoldable pub read_msr : ℕ → ℕ → ℕ
read_msr high low = bit_or (u32 high * 2 ^ 32) (u32 low)

-- The four registers that cpuid fills.
pub record Leaf : Type 0 where
  pub eax : ℕ
  pub ebx : ℕ
  pub ecx : ℕ
  pub edx : ℕ

-- What cpuid reports, by the number in eax and that in ecx.
abbrev pub Cpuid : Type 0
Cpuid = ℕ → ℕ → Leaf

unfoldable pub get_cpu_vendor : Cpuid → ℕ → ℕ → Ram → Ram
unfolding put_bytes
get_cpu_vendor cpuid ecx buffer m =
    let l = cpuid 0 ecx in
    put_bytes 4 (put_bytes 4 (put_bytes 4 m buffer l.ebx) (buffer + 4) l.edx) (buffer + 8) l.ecx

-- The loop of get_cpu_brand from round i on, with `left` rounds to go; ecx is not set.
unfoldable pub brand_loop : ℕ → Cpuid → ℕ → ℕ → ℕ → Ram → Ram
unfolding put_bytes
brand_loop zero cpuid ecx i ptr m = m
brand_loop (suc left) cpuid ecx i ptr m =
    let l = cpuid (0x80000002 + i) ecx in
    let half = put_bytes 4 (put_bytes 4 m ptr l.eax) (ptr + 4) l.ebx in
    brand_loop left cpuid ecx (i + 1) (ptr + 16)
      (put_bytes 4 (put_bytes 4 half (ptr + 8) l.ecx) (ptr + 12) l.edx)

unfoldable pub get_cpu_brand : Cpuid → ℕ → ℕ → Ram → Ram
unfolding brand_loop
get_cpu_brand cpuid ecx brand_string m = brand_loop 3 cpuid ecx 0 brand_string m

-- The loop of get_cpu_topology over the levels; `none` has found no end after `left` of them.
unfoldable pub topology_loop : ℕ → Cpuid → ℕ → Option ℕ
topology_loop zero cpuid level = none
topology_loop (suc left) cpuid level =
    let l = cpuid 0xb level in
    let level_type = bit_and (l.ecx / 2 ^ 8) 0xff in
    let rest = topology_loop left cpuid (level + 1) in
    if bit_and l.ecx 0xff00 == 0
    then some 0
    else if level_type == 2
    then some (bit_and l.ebx 0xffff)
    else rest

-- logicalProcessorsPerCore and totalLogicalProcessors
unfoldable pub get_cpu_topology : ℕ → Cpuid → Option (ℕ × ℕ)
unfolding topology_loop
get_cpu_topology left cpuid =
    topology_loop left cpuid 0 >>= λ per_core. some (per_core, bit_and (cpuid 0xb 0).ebx 0xffff)

pub record Frequency : Type 0 where
  pub base_mhz : ℕ
  pub max_mhz : ℕ
  pub bus_mhz : ℕ

unfoldable pub get_cpu_frequency : Cpuid → ℕ → Frequency
get_cpu_frequency cpuid ecx =
    let l = cpuid 0x16 ecx in
    record {
      base_mhz = bit_and l.eax 0xffff;
      max_mhz = bit_and l.ebx 0xffff;
      bus_mhz = bit_and l.ecx 0xffff;
    }

-- The globals of src/cpu.c, from the bootloader's answer.
pub record Cpus : Type 0 where
  pub bsp_lapic_id : ℕ
  pub cpu_count : ℕ

unfoldable pub cpu_init : ℕ → ℕ → Cpus
cpu_init bsp_lapic_id cpu_count = record { bsp_lapic_id = bsp_lapic_id; cpu_count = cpu_count }
