-- ===== src/Kernel.antt =====
-- The loop of kernel_main in src/kernel.c and the interrupt handlers of src/idt.c that run between
-- its steps. An interrupt may come before any step but not inside one: the read of the queue runs with
-- interrupts disabled, the check reads one word, and of what the handlers change the handling of an
-- event reads only the count of seconds, once.
pub mod Passes
pub mod Run
pub mod Progress
pub mod Prompt
pub mod Session
pub mod Start
pub mod Report
mod Tests
use bloreos.Base.{
  ℕ, zero, suc, ◌+◌, ◌^◌, ◌≡◌, Bool, true, false, List, [], ◌∷◌, Option, some, none, ltb,
  if◌then◌else◌, Ram, u8, u64, ◌>>=◌,
}
use bloreos.Atomic.{Outcome, returns, spins, halts, faults}
use bloreos.Queue.{CQueue, cqueue_read, cqueue_write}
use bloreos.Ps2.Keys.{KeyEvent}
use bloreos.Terminal.{Terminal}
use bloreos.Terminal.Input.{term_keyevent}
use bloreos.Hpet.{Hpet, hpet_isr, hpet_ack}
use bloreos.Lapic.{Lapic, lapic_eoi}

-- Where the loop is: at the check of num_items, inside the `if`, or with the code that was read.
pub data Place : Type 0 where
  checking fetching : Place
  handling : ℕ → Place

pub record Kernel : Type 0 where
  pub place : Place
  pub q_keyboard : CQueue
  pub scancode_map : ℕ → Option KeyEvent
  pub terminal : Terminal
  pub kernel_timer_secs : ℕ
  pub hpet : Hpet
  pub lapic : Lapic

-- q_keyboard->num_items > 0
unfoldable pub check : Kernel → Kernel
check k = record k { place = if ltb 0 k.q_keyboard.num_items then fetching else checking }

unfoldable pub after_read : Kernel → Outcome CQueue ℕ → Outcome Kernel ℕ
after_read k (returns q code) = returns (record k { place = handling code; q_keyboard = q }) code
after_read k spins = spins
after_read k (halts q) = halts (record k { q_keyboard = q })
after_read k faults = faults

-- The read with interrupts disabled.
unfoldable pub fetch : Kernel → Outcome Kernel ℕ
fetch k = after_read k (cqueue_read k.q_keyboard)

-- term_keyevent for the event of a code, if it has one; `stacks` is as in term_keyevent.
unfoldable pub key_event : (ℕ → Ram) → ℕ → Option KeyEvent → Terminal → Option Terminal
key_event stacks secs none t = some t
key_event stacks secs (some ke) t = term_keyevent stacks secs ke t

unfoldable pub handle : (ℕ → Ram) → ℕ → Kernel → Option Kernel
handle stacks code k =
    key_event stacks k.kernel_timer_secs (k.scancode_map code) k.terminal >>= λ t.
    some (record k { place = checking; terminal = t })

abbrev pub returned : Outcome Kernel ℕ → Option Kernel
returned (returns k code) = some k
returned spins = none
returned (halts k) = none
returned faults = none

-- What the loop does next without an interrupt; `none` is a step that does not return.
unfoldable pub step_at : (ℕ → Ram) → Kernel → Place → Option Kernel
step_at stacks k checking = some (check k)
step_at stacks k fetching = returned (fetch k)
step_at stacks k (handling code) = handle stacks code k

-- So many steps of `while(1)` without an interrupt. Step i, if it handles an event, finds `stacks i` on
-- the stack.
unfoldable pub loop : ℕ → (ℕ → ℕ → Ram) → Kernel → Option Kernel
loop zero stacks k = some k
loop (suc n) stacks k = step_at (stacks 0) k k.place >>= loop n (λ i. stacks (i + 1))

unfoldable pub after_write : Kernel → Outcome CQueue Bool → Outcome Kernel Bool
after_write k (returns q taken) =
    returns (record k { q_keyboard = q; lapic = lapic_eoi k.lapic }) taken
after_write k spins = spins
after_write k (halts q) = halts (record k { q_keyboard = q })
after_write k faults = faults

-- _handle_keyboard for the byte that the keyboard has. Whether the queue had room is what
-- cqueue_write returns, and is ignored there.
unfoldable pub handle_keyboard : ℕ → Kernel → Outcome Kernel Bool
handle_keyboard key k = after_write k (cqueue_write k.q_keyboard (u8 key))

-- _handle_timer
unfoldable pub handle_timer : Kernel → Kernel
handle_timer k = record k { hpet = hpet_ack (hpet_isr k.hpet); lapic = lapic_eoi k.lapic }

-- _handle_lapic_timer
unfoldable pub handle_lapic_timer : Kernel → Kernel
handle_lapic_timer k = record k {
  kernel_timer_secs = u64 (k.kernel_timer_secs + 1);
  lapic = lapic_eoi k.lapic;
}

-- What a step shows of the keys.
pub data Event : Type 0 where
  silent : Event
  pressed : ℕ → Bool → Event
  fetched : ℕ → Event

-- A step of the loop, or an interrupt.
pub data Step : Kernel → Event → Kernel → Type 0 where
  checks : {k : Kernel} → k.place ≡ checking → Step k silent (check k)
  fetches :
      {k k' : Kernel} (code : ℕ)
      → k.place ≡ fetching
      → fetch k ≡ returns k' code
      → Step k (fetched code) k'
  handles :
      {k k' : Kernel} (stacks : ℕ → Ram) (code : ℕ)
      → k.place ≡ handling code
      → handle stacks code k ≡ some k'
      → Step k silent k'
  keyboard :
      {k k' : Kernel} (key : ℕ) (taken : Bool)
      → handle_keyboard key k ≡ returns k' taken
      → Step k (pressed (u8 key) taken) k'
  timer : {k : Kernel} → Step k silent (handle_timer k)
  lapic_timer : {k : Kernel} → Step k silent (handle_lapic_timer k)
