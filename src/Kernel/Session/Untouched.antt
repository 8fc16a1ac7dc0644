-- ===== src/Kernel/Session/Untouched.antt =====
-- The steps of src/kernel.c's loop and the interrupts that leave the terminal alone.
use bloreos.Base.{
  ℕ, ◌^◌, ◌<◌, ◌≡◌, refl, ap, sym, subst, ◌∙◌, Bool, Bool-cases, inl, inr, ltb, List, [], u8, arith,
  if◌then◌else◌,
}
use bloreos.Atomic.{Outcome, returns, spins, halts, faults}
use bloreos.Str.Compare.{Holds}
use bloreos.Queue.{CQueue, cqueue_read, cqueue_write}
use bloreos.Lapic.{lapic_eoi}
use bloreos.Terminal.{Terminal}
use bloreos.Terminal.InScreen.{InScreen}
use bloreos.Kernel.Session.{in_hand}
use bloreos.Kernel.{
  Kernel, checking, fetching, handling, check, after_read, after_write, fetch, handle_keyboard,
  handle_timer, handle_lapic_timer,
}
use bloreos.Kernel.Prompt.{AtPrompt}

-- What every step but the handling of an event leaves alone.
pub record Untouched (k k' : Kernel) : Type 0 where
  pub table : k'.scancode_map ≡ k.scancode_map
  pub terminal : k'.terminal ≡ k.terminal
  pub seconds : k.kernel_timer_secs < 2 ^ 64 → k'.kernel_timer_secs < 2 ^ 64

pub Untouched-AtPrompt :
    (k k' : Kernel) (s : List ℕ) → Untouched k k' → AtPrompt k s → AtPrompt k' s
Untouched-AtPrompt k k' s u v = record {
  table = u.table ∙ v.table;
  screen = subst InScreen (sym u.terminal) v.screen;
  input = subst (λ (t : Terminal). Holds t.input_str 0 s) (sym u.terminal) v.input;
  typed = v.typed;
  seconds = u.seconds v.seconds;
}

after_read_keeps :
    (k k' : Kernel) (code : ℕ) (o : Outcome CQueue ℕ)
    → after_read k o ≡ returns k' code
    → Untouched k k' × (k'.place ≡ handling code)
unfolding after_read
after_read_keeps k k' code (returns q x) e =
    let k'' = record k { place = handling x; q_keyboard = q } in
    let same : k'' ≡ k' = cc in
    let same_code : x ≡ code = cc in
    subst (λ k'. Untouched k k' × (k'.place ≡ handling code)) same
      (record { table = refl; terminal = refl; seconds = λ h. h }, ap handling same_code)
after_read_keeps k k' code spins e = absurd cc
after_read_keeps k k' code (halts q) e = absurd cc
after_read_keeps k k' code faults e = absurd cc

after_write_keeps :
    (k k' : Kernel) (b : Bool) (o : Outcome CQueue Bool)
    → after_write k o ≡ returns k' b
    → Untouched k k' × (k'.place ≡ k.place)
unfolding after_write
after_write_keeps k k' b (returns q x) e =
    let k'' = record k { q_keyboard = q; lapic = lapic_eoi k.lapic } in
    let same : k'' ≡ k' = cc in
    subst (λ k'. Untouched k k' × (k'.place ≡ k.place)) same
      (record { table = refl; terminal = refl; seconds = λ h. h }, refl)
after_write_keeps k k' b spins e = absurd cc
after_write_keeps k k' b (halts q) e = absurd cc
after_write_keeps k k' b faults e = absurd cc

pub checked : (k : Kernel) → Untouched k (check k) × (in_hand (check k).place ≡ [])
unfolding check
checked k = (record { table = refl; terminal = refl; seconds = λ h. h }, nothing)
  where
    nothing : in_hand (if ltb 0 k.q_keyboard.num_items then fetching else checking) ≡ []
    nothing = elim (Bool-cases (ltb 0 k.q_keyboard.num_items)) [
      | inl full ↦ rw full refl
      | inr empty ↦ rw empty refl
    ]

pub fetched_lem :
    (k k' : Kernel) (code : ℕ)
    → fetch k ≡ returns k' code
    → Untouched k k' × (k'.place ≡ handling code)
unfolding fetch
fetched_lem k k' code e = after_read_keeps k k' code (cqueue_read k.q_keyboard) e

pub keyboard_lem :
    (k k' : Kernel) (key : ℕ) (b : Bool)
    → handle_keyboard key k ≡ returns k' b
    → Untouched k k' × (k'.place ≡ k.place)
unfolding handle_keyboard
keyboard_lem k k' key b e = after_write_keeps k k' b (cqueue_write k.q_keyboard (u8 key)) e

pub timer_lem : (k : Kernel) → Untouched k (handle_timer k) × ((handle_timer k).place ≡ k.place)
unfolding handle_timer
timer_lem k = (record { table = refl; terminal = refl; seconds = λ h. h }, refl)

pub lapic_timer_lem :
    (k : Kernel) → Untouched k (handle_lapic_timer k) × ((handle_lapic_timer k).place ≡ k.place)
unfolding handle_lapic_timer
lapic_timer_lem k = (record { table = refl; terminal = refl; seconds = λ h. omega arith }, refl)
