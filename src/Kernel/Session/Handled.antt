-- ===== src/Kernel/Session/Handled.antt =====
-- The handling of an event in src/kernel.c, where it returns.
use bloreos.Base.{ℕ, ◌<◌, ◌≡◌, ap, sym, subst, List, Option, some, none, Ram, length, bind_some}
use bloreos.Str.Compare.{Holds}
use bloreos.Ps2.Keys.{KeyEvent}
use bloreos.Terminal.{Terminal}
use bloreos.Terminal.InScreen.{InScreen}
use bloreos.Terminal.Room.{term_keyevent-fits}
use bloreos.Kernel.{Kernel, checking, key_event, handle}
use bloreos.Kernel.Progress.{input_after}
use bloreos.Kernel.Prompt.{keyboard_table, keyboard_table_lem, after_typed, AtPrompt}

key_event-fits :
    (stacks : ℕ → Ram) (secs : ℕ) (event : Option KeyEvent) (s : List ℕ) (t t' : Terminal)
    → InScreen t
    → Holds t.input_str 0 s
    → length s < 256
    → key_event stacks secs event t ≡ some t'
    → InScreen t'
      × Holds t'.input_str 0 (input_after event s)
      × (length (input_after event s) < 256)
unfolding key_event
key_event-fits stacks secs none s t t' v h fits e =
    let same : t ≡ t' = cc in
    subst (λ t. InScreen t × Holds t.input_str 0 s × (length s < 256)) same (v, h, fits)
key_event-fits stacks secs (some ke) s t t' v h fits e =
    term_keyevent-fits stacks secs ke s t t' v h fits e

pub handled :
    (stacks : ℕ → Ram) (code : ℕ) (k k' : Kernel) (s : List ℕ)
    → AtPrompt k s
    → length s < 256
    → code < 256
    → handle stacks code k ≡ some k'
    → AtPrompt k' (input_after (keyboard_table code) s)
      × (length (input_after (keyboard_table code) s) < 256)
      × (k'.place ≡ checking)
      × (k'.q_keyboard ≡ k.q_keyboard)
unfolding handle
handled stacks code k k' s v fits byte e =
    let event : k.scancode_map code ≡ keyboard_table code =
      ap (λ (f : ℕ → Option KeyEvent). f code) v.table in
    let (t', done, e') =
      bind_some (key_event stacks k.kernel_timer_secs (k.scancode_map code) k.terminal) _ k' e in
    let (screen, input, small) =
      key_event-fits stacks k.kernel_timer_secs (keyboard_table code) s k.terminal t' v.screen
        v.input fits
        (subst (λ e. key_event stacks k.kernel_timer_secs e k.terminal ≡ some t') event done) in
    let k'' = record k { place = checking; terminal = t' } in
    let same : k'' ≡ k' = cc in
    let prompt : AtPrompt k'' (input_after (keyboard_table code) s) = record {
      table = v.table;
      screen = screen;
      input = input;
      typed = after_typed (keyboard_table code) s (keyboard_table_lem code byte) v.typed;
      seconds = v.seconds;
    } in
    (
      subst (λ k. AtPrompt k (input_after (keyboard_table code) s)) same prompt,
      small,
      ap (λ (k : Kernel). k.place) (sym same),
      ap (λ (k : Kernel). k.q_keyboard) (sym same),
    )
