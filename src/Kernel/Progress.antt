-- ===== src/Kernel/Progress.antt =====
-- The loop of src/kernel.c gets through the key events.
use bloreos.Base.{ℕ, ◌^◌, ◌<◌, ◌≡◌, refl, Bool, true, List, Option, some, none, Ram, length}
use bloreos.Str.Compare.{Holds}
use bloreos.Ps2.Keys.{KeyEvent}
use bloreos.Terminal.{Terminal}
use bloreos.Terminal.InScreen.{InScreen}
use bloreos.Terminal.Typed.{next_input, allowed, term_keyevent-next}
use bloreos.Kernel.{Kernel, checking, key_event, handle}

-- The same for the event of a code, if it has one.
abbrev pub input_after : Option KeyEvent → List ℕ → List ℕ
input_after none s = s
input_after (some ke) s = next_input ke s

abbrev pub passable : Option KeyEvent → List ℕ → Bool
passable none s = true
passable (some ke) s = allowed ke s

key_event-next :
    (stacks : ℕ → Ram) (secs : ℕ) (event : Option KeyEvent) (s : List ℕ) (t : Terminal)
    → InScreen t
    → Holds t.input_str 0 s
    → length s < 255
    → secs < 2 ^ 64
    → passable event s ≡ true
    → (t' : Terminal) × (key_event stacks secs event t ≡ some t')
      × InScreen t'
      × Holds t'.input_str 0 (input_after event s)
unfolding key_event
key_event-next stacks secs none s t v h small word ok = (t, refl, v, h)
key_event-next stacks secs (some ke) s t v h small word ok =
    term_keyevent-next stacks secs ke s t v h small word ok

-- With fewer than 255 characters of input, a screen whose next character fits and a count of seconds of
-- 64 bits, the loop gets through the event of every code and back to its check, and the next character
-- fits again: the input is edited as a list, and emptied by Enter, if that is pressed on an input of at
-- least one character without conversions. The queue is left alone.
pub handle-next :
    (stacks : ℕ → Ram) (code : ℕ) (s : List ℕ) (k : Kernel)
    → InScreen k.terminal
    → Holds k.terminal.input_str 0 s
    → length s < 255
    → k.kernel_timer_secs < 2 ^ 64
    → passable (k.scancode_map code) s ≡ true
    → (k' : Kernel) × (handle stacks code k ≡ some k')
      × (k'.place ≡ checking)
      × (k'.q_keyboard ≡ k.q_keyboard)
      × InScreen k'.terminal
      × Holds k'.terminal.input_str 0 (input_after (k.scancode_map code) s)
unfolding handle
handle-next stacks code s k v h small word ok =
    let (t', done, v', text) =
      key_event-next stacks k.kernel_timer_secs (k.scancode_map code) s k.terminal v h small word
        ok in
    (record k { place = checking; terminal = t' }, rw done refl, refl, refl, v', text)
