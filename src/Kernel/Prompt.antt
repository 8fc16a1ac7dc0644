-- ===== src/Kernel/Prompt.antt =====
-- The input of src/kernel.c's loop with the key map of src/drivers/ps2.c.
use bloreos.Base.{
  ℕ, ◌<◌, ◌^◌, ◌≡◌, refl, ap, sym, ◌∙◌, Bool, true, false, not, ◌&&◌, List, [], ◌∷◌, ◌++◌, Option,
  some, none, ◌==◌, Ram, length, arith, Bool-cases, inl, inr, all_below, all_below_sound, subst,
  ◌>>=◌,
}
use bloreos.Str.Compare.{Holds}
use bloreos.Str.Format.Plain.{plain}
use bloreos.Ps2.Keys.{KeyEvent, key_map, register_keys}
use bloreos.Ps2.Table.{no_keys}
use bloreos.Terminal.{Terminal}
use bloreos.Terminal.Input.{ps2_keydown, ps2_scancode_backspace}
use bloreos.Terminal.Lines.{no_zero}
use bloreos.Terminal.InScreen.{InScreen}
use bloreos.Terminal.Edit.{edited, drop_last, nonempty}
use bloreos.Terminal.Enter.{printable}
use bloreos.Terminal.Typed.{is_enter}
use bloreos.Kernel.{Kernel, checking, key_event, handle}
use bloreos.Kernel.Progress.{input_after, passable, handle-next}

-- The table that ps2_init makes.
abbrev pub keyboard_table : ℕ → Option KeyEvent
keyboard_table = (register_keys key_map no_keys).scancode_map

-- The event of a code types no `%`.
abbrev no_percent : Option KeyEvent → Bool
no_percent none = true
no_percent (some ke) = not (ke.ascii == b'%')

no_percent_table : all_below 256 (λ c. no_percent (keyboard_table c)) ≡ true
unfolding all_below register_keys
no_percent_table = refl

pub keyboard_table_lem : (c : ℕ) → c < 256 → no_percent (keyboard_table c) ≡ true
keyboard_table_lem c h =
    all_below_sound 256 (λ c. no_percent (keyboard_table c)) c no_percent_table h

-- No character of the input is a zero or a `%`.
abbrev pub is_typed : List ℕ → Bool
is_typed [] = true
is_typed (c ∷ s) = not (c == 0) && not (c == b'%') && is_typed s

typed_plain : (s : List ℕ) → is_typed s ≡ true → (plain s ≡ true) × (no_zero s ≡ true)
typed_plain [] h = (refl, refl)
typed_plain (c ∷ s) h =
    let (p, n) = typed_plain s (ground (arith, h)) in (ground (arith, h, p), ground (arith, h, n))

typed_snoc :
    (s : List ℕ) (c : ℕ)
    → is_typed s ≡ true
    → not (c == 0) ≡ true
    → not (c == b'%') ≡ true
    → is_typed (s ++ (c ∷ [])) ≡ true
typed_snoc [] c h z p = ground (arith, z, p)
typed_snoc (d ∷ s) c h z p = ground (arith, h, typed_snoc s c (ground (arith, h)) z p)

typed_drop : (s : List ℕ) → is_typed s ≡ true → is_typed (drop_last s) ≡ true
typed_drop [] h = refl
typed_drop (c ∷ []) h = refl
typed_drop (c ∷ d ∷ s) h = ground (arith, h, typed_drop (d ∷ s) (ground (arith, h)))

edited_typed :
    (ke : KeyEvent) (s : List ℕ)
    → not (ke.ascii == b'%') ≡ true
    → is_typed s ≡ true
    → is_typed (edited ke s) ≡ true
edited_typed ke s p h =
    elim (Bool-cases
      (ke.event_type == ps2_keydown && (ke.scan_code == ps2_scancode_backspace) && nonempty s)) [
        | inl back ↦ rw back (typed_drop s h)
        | inr keep ↦ elim (Bool-cases (ke.event_type == ps2_keydown && not (ke.ascii == 0))) [
          | inl typed ↦ rw (keep, typed) (typed_snoc s ke.ascii h (ground (arith, typed)) p)
          | inr idle ↦ rw (keep, idle) h
        ]
      ]

pub after_typed :
    (event : Option KeyEvent) (s : List ℕ)
    → no_percent event ≡ true
    → is_typed s ≡ true
    → is_typed (input_after event s) ≡ true
after_typed none s p h = h
after_typed (some ke) s p h = elim (Bool-cases (is_enter ke)) [
  | inl pressed ↦ rw pressed refl
  | inr other ↦ rw other (edited_typed ke s p h)
]

printable_lem :
    (s : List ℕ) → nonempty s ≡ true → is_typed s ≡ true → length s < 255 → printable s ≡ true
printable_lem [] some_key h small = absurd (ground (arith, some_key))
printable_lem (c ∷ s) some_key h small = let (p, n) = typed_plain (c ∷ s) h in ground (arith, p, n)

-- Enter on an empty input.
abbrev pub is_empty_enter : Option KeyEvent → List ℕ → Bool
is_empty_enter none s = false
is_empty_enter (some ke) s = is_enter ke && not (nonempty s)

passable_lem :
    (event : Option KeyEvent) (s : List ℕ)
    → is_empty_enter event s ≡ false
    → is_typed s ≡ true
    → length s < 255
    → passable event s ≡ true
passable_lem none s e h small = refl
passable_lem (some ke) s e h small = elim (Bool-cases (is_enter ke)) [
  | inl pressed ↦ rw pressed (printable_lem s (ground (arith, e, pressed)) h small)
  | inr other ↦ rw other refl
]

-- The kernel with the key map's table, a screen whose next character fits, and the input s, which was
-- typed.
pub record AtPrompt (k : Kernel) (s : List ℕ) : Type 0 where
  pub table : k.scancode_map ≡ keyboard_table
  pub screen : InScreen k.terminal
  pub input : Holds k.terminal.input_str 0 s
  pub typed : is_typed s ≡ true
  pub seconds : k.kernel_timer_secs < 2 ^ 64

pub handle_keeps :
    (stacks : ℕ → Ram) (code : ℕ) (k k' : Kernel)
    → handle stacks code k ≡ some k'
    → (k'.scancode_map ≡ k.scancode_map) × (k'.kernel_timer_secs ≡ k.kernel_timer_secs)
unfolding handle
handle_keeps stacks code k k' e =
    done (key_event stacks k.kernel_timer_secs (k.scancode_map code) k.terminal) e
  where
    done :
        (o : Option Terminal)
        → (o >>= λ t. some (record k { place = checking; terminal = t })) ≡ some k'
        → (k'.scancode_map ≡ k.scancode_map) × (k'.kernel_timer_secs ≡ k.kernel_timer_secs)
    done none e = absurd cc
    done (some t) e =
        let k'' = record k { place = checking; terminal = t } in
        let same : k'' ≡ k' = cc in
        (
          ap (λ (k : Kernel). k.scancode_map) (sym same),
          ap (λ (k : Kernel). k.kernel_timer_secs) (sym same),
        )

-- At the prompt with fewer than 255 characters of input, the loop gets through the event of every code
-- of a byte but Enter on an empty input, and is back at its check and at the prompt: every command
-- ends, what was typed is never taken for a conversion, and the input is edited as a list.
pub handle-AtPrompt :
    (stacks : ℕ → Ram) (code : ℕ) (s : List ℕ) (k : Kernel)
    → AtPrompt k s
    → code < 256
    → length s < 255
    → is_empty_enter (keyboard_table code) s ≡ false
    → (k' : Kernel) × (handle stacks code k ≡ some k')
      × (k'.place ≡ checking)
      × (k'.q_keyboard ≡ k.q_keyboard)
      × AtPrompt k' (input_after (keyboard_table code) s)
handle-AtPrompt stacks code s k v byte small enter =
    let event : k.scancode_map code ≡ keyboard_table code =
      ap (λ (f : ℕ → Option KeyEvent). f code) v.table in
    let ok =
      ap (λ e. passable e s) event ∙ passable_lem (keyboard_table code) s enter v.typed small in
    let (k', done, place, queue, screen, input) =
      handle-next stacks code s k v.screen v.input small v.seconds ok in
    let (table, seconds) = handle_keeps stacks code k k' done in
    (
      k',
      done,
      place,
      queue,
      record {
        table = table ∙ v.table;
        screen = screen;
        input = subst (λ e. Holds k'.terminal.input_str 0 (input_after e s)) event input;
        typed = after_typed (keyboard_table code) s (keyboard_table_lem code byte) v.typed;
        seconds = omega (arith, seconds, v.seconds);
      },
    )
