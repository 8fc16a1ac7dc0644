-- ===== src/Cpu/Awake.antt =====
-- _cpu_awake of src/cpu.c, in which a core starts; nothing calls it. `none` does not get to its hlt.
use bloreos.Base.{
  ℕ, ◌+◌, ◌≡◌, ap, sym, List, [], ◌∷◌, Option, some, none, Ram, u64, codes, ◌>>=◌, bind_some, ◌==◌,
  arith, Bool-cases, inl, inr,
}
use bloreos.Atomic.{spinlock_lock, spinlock_unlock}
use bloreos.Str.Format.{int_arg}
use bloreos.Ps2.{Io}
use bloreos.Terminal.{Terminal}
use bloreos.Kprintf.Lines.{as_int, Line, print_lines}
use bloreos.Hpet.{Hpet}
use bloreos.Lapic.{Lapic, lapic_init}

-- _cpus_awake and _cpu_lock, and what the core works on.
pub record Core : Type 0 where
  pub cpus_awake : ℕ
  pub cpu_lock : ℕ
  pub port : Io
  pub screen : Terminal
  pub timer : Hpet
  pub lapic : Lapic

unfoldable pub awake_lines : ℕ → ℕ → List Line
unfolding as_int
awake_lines lapic_id processor_id =
    (codes "Waking up...\n", [])
    ∷ (codes "LAPIC ID: %d\n", int_arg (as_int lapic_id) ∷ [])
    ∷ (codes "Processor ID: %d\n", int_arg (as_int processor_id) ∷ [])
    ∷ []

unfoldable pub online_line : ℕ → List Line
unfolding as_int
online_line cpus = (codes "Cores Online: %d\n", int_arg (as_int cpus) ∷ []) ∷ []

unfoldable pub cpu_awake : ℕ → (ℕ → ℕ) → ℕ → ℕ → (ℕ → Ram) → (ℕ → Ram) → ℕ → ℕ → Core → Option Core
unfolding awake_lines online_line
cpu_awake polls readings current msr stacks below lapic_id processor_id c = do
  timed ← lapic_init polls readings current msr c.timer c.lapic
  held ← spinlock_lock c.cpu_lock
  shown ← print_lines stacks below 0 (awake_lines lapic_id processor_id) c.port c.screen
  told ← print_lines stacks below 3 (online_line (u64 (c.cpus_awake + 1))) shown.0 shown.1
  some (record {
    cpus_awake = u64 (c.cpus_awake + 1);
    cpu_lock = spinlock_unlock held;
    port = told.0;
    screen = told.1;
    timer = timed.0;
    lapic = timed.1;
  })

was_free : (lock held : ℕ) → spinlock_lock lock ≡ some held → lock ≡ 0
unfolding spinlock_lock
was_free lock held h = elim (Bool-cases (lock == 0)) [
  | inl free ↦ ground (arith, free)
  | inr taken ↦ let bad : none ≡ some held = rw taken at h in absurd cc
]

-- A core that gets to its hlt found the lock free, and leaves it free, with itself counted.
pub cpu_awake-counts :
    (polls current msr lapic_id processor_id : ℕ) (readings : ℕ → ℕ) (stacks below : ℕ → Ram)
    (c c' : Core)
    → cpu_awake polls readings current msr stacks below lapic_id processor_id c ≡ some c'
    → (c.cpu_lock ≡ 0) × (c'.cpu_lock ≡ 0) × (c'.cpus_awake ≡ u64 (c.cpus_awake + 1))
unfolding cpu_awake spinlock_unlock
cpu_awake-counts polls current msr lapic_id processor_id readings stacks below c c' e =
    let (timed, t, e1) = bind_some (lapic_init polls readings current msr c.timer c.lapic) _ c' e in
    let (held, h, e2) = bind_some (spinlock_lock c.cpu_lock) _ c' e1 in
    let (shown, s, e3) =
      bind_some (print_lines stacks below 0 (awake_lines lapic_id processor_id) c.port c.screen) _
        c' e2 in
    let (told, o, e4) =
      bind_some (print_lines stacks below 3 (online_line (u64 (c.cpus_awake + 1))) shown.0 shown.1)
        _ c' e3 in
    let made : some (record {
      cpus_awake = u64 (c.cpus_awake + 1);
      cpu_lock = 0;
      port = told.0;
      screen = told.1;
      timer = timed.0;
      lapic = timed.1;
    })
        ≡ some c' =
      e4 in
    (was_free c.cpu_lock held h, ap lock_of (sym made), ap count_of (sym made))
  where
    lock_of : Option Core → ℕ
    lock_of none = 0
    lock_of (some c) = c.cpu_lock

    count_of : Option Core → ℕ
    count_of none = 0
    count_of (some c) = c.cpus_awake
