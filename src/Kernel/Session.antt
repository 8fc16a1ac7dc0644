-- ===== src/Kernel/Session.antt =====
-- What any run of src/kernel.c's loop and the interrupts of src/idt.c makes of the keys.
pub mod Untouched
pub mod Handled
pub mod Goes
pub mod Runs
pub mod Holding
pub mod Drains
mod Tests
use bloreos.Base.{
  ℕ, ◌+◌, ◌^◌, ◌<◌, ◌≡◌, refl, ap, sym, subst, ◌∙◌, Bool, true, false, Bool-cases, inl, inr, ltb,
  ◌&&◌, List, [], ◌∷◌, ◌++◌, Option, some, none, Ram, u8, u64, length, append-nil, append_assoc,
  arith, bind_some, if◌then◌else◌,
}
use bloreos.Atomic.{Outcome, returns, spins, halts, faults}
use bloreos.Str.Compare.{Holds}
use bloreos.Queue.{CQueue, cqueue_read, cqueue_write}
use bloreos.Queue.Refine.{contents}
use bloreos.Ps2.Keys.{KeyEvent}
use bloreos.Lapic.{lapic_eoi}
use bloreos.Terminal.{Terminal}
use bloreos.Terminal.InScreen.{InScreen}
use bloreos.Terminal.Room.{term_keyevent-fits}
use bloreos.Kernel.{
  Kernel, Place, checking, fetching, handling, check, after_read, after_write, fetch, key_event,
  handle, handle_keyboard, handle_timer, handle_lapic_timer, Event, silent, pressed, fetched, Step,
  checks, fetches, handles, keyboard, timer, lapic_timer,
}
use bloreos.Kernel.Passes.{taken, read, IsRunning, Passes, step-Passes}
use bloreos.Kernel.Run.{Run, stop, next, all_taken}
use bloreos.Kernel.Progress.{input_after}
use bloreos.Kernel.Prompt.{keyboard_table, keyboard_table_lem, after_typed, handle_keeps, AtPrompt}

-- The code that the loop has read and not handled yet, and the keys that wait for their event: that
-- one and those in the queue.
abbrev pub in_hand : Place → List ℕ
in_hand checking = []
in_hand fetching = []
in_hand (handling code) = code ∷ []

abbrev pub waiting : Kernel → List ℕ
waiting k = in_hand k.place ++ contents k.q_keyboard

abbrev pub all_bytes : List ℕ → Bool
all_bytes [] = true
all_bytes (c ∷ s) = ltb c 256 && all_bytes s

-- The input after the events of the codes, one after the other.
abbrev pub edit_all : List ℕ → List ℕ → List ℕ
edit_all [] s = s
edit_all (code ∷ codes) s = edit_all codes (input_after (keyboard_table code) s)

-- The kernel is at the prompt with an input s that fits into its array, its queue is well formed, and
-- the keys that wait are bytes.
pub record Session (k : Kernel) (s : List ℕ) : Type 0 where
  pub running : IsRunning k
  pub prompt : AtPrompt k s
  pub fits : length s < 256
  pub keys : all_bytes (waiting k) ≡ true
