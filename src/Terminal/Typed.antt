-- ===== src/Terminal/Typed.antt =====
-- A key event of src/terminal.c, Enter or not: what is on the screen afterwards, and the input.
use bloreos.Base.{
  ℕ, ◌-◌, ◌^◌, ◌+◌, ◌<◌, ◌≡◌, refl, subst, ◌∙◌, Bool, true, false, not, ◌&&◌, List, [], some, none,
  ltb, ◌==◌, if◌then◌else◌, Ram, update, u32, u64, length, Bool-cases, inl, inr,
}
use bloreos.Str.{strlen}
use bloreos.Str.Compare.{Holds}
use bloreos.Ps2.Keys.{KeyEvent}
use bloreos.Terminal.{Terminal}
use bloreos.Terminal.Draw.{render_glyph, clear_cursor, render_cursor}
use bloreos.Terminal.Input.{
  enter, backspace, type_char, clear_glyph, term_keyevent, ps2_keydown, ps2_scancode_enter,
  ps2_scancode_backspace,
}
use bloreos.Terminal.Kept.{Kept-render_cursor, Kept-clear_cursor, Kept-render_glyph}
use bloreos.Terminal.InScreen.{InScreen, InScreen-Kept}
use bloreos.Terminal.Edit.{edited, term_keyevent-edits}
use bloreos.Terminal.Enter.{printable, enter-InScreen}

-- InScreen does not speak of the pixels and of the input.
redrawn-InScreen :
    (t : Terminal) (m : Ram) (x : ℕ) (input : Ram)
    → InScreen t
    → InScreen (record t { mem = m; input_render_x = x; input_str = input })
redrawn-InScreen t m x input v = record {
  ready = v.ready;
  cell = v.cell;
  narrow = v.narrow;
  low = v.low;
  x_in = v.x_in;
  y_in = v.y_in;
}

clear_cursor-InScreen : (t : Terminal) → InScreen t → InScreen (clear_cursor t)
clear_cursor-InScreen t v = InScreen-Kept t (clear_cursor t) (Kept-clear_cursor t) v

render_cursor-InScreen : (t : Terminal) → InScreen t → InScreen (render_cursor t)
render_cursor-InScreen t v = InScreen-Kept t (render_cursor t) (Kept-render_cursor t) v

type_char-InScreen :
    (ch : ℕ) (t t' : Terminal) → InScreen t → type_char ch t ≡ some t' → InScreen t'
unfolding type_char
type_char-InScreen ch t t' v e =
    let drawn = render_glyph ch t.input_render_x t.input_render_y t in
    let len = strlen t.input_str 0 in
    let typed = record drawn {
      input_render_x = u32 (t.input_render_x + t.glyph_width);
      input_str = update (update t.input_str len ch) (len + 1) 0;
    } in
    let drawn-InScreen =
      InScreen-Kept t drawn (Kept-render_glyph ch t.input_render_x t.input_render_y t) v in
    let done = render_cursor-InScreen (clear_cursor typed) (
      clear_cursor-InScreen typed
        (redrawn-InScreen drawn drawn.mem typed.input_render_x typed.input_str drawn-InScreen)) in
    elim (Bool-cases (ltb (len + 1) 256)) [
      | inl room ↦
          let same : some (render_cursor (clear_cursor typed)) ≡ some t' = rw room at e in
          let same' : render_cursor (clear_cursor typed) ≡ t' = cc in subst InScreen same' done
      | inr full ↦ let same : none ≡ some t' = rw full at e in absurd cc
    ]

backspace-InScreen : (t : Terminal) → InScreen t → InScreen (backspace t)
unfolding backspace
backspace-InScreen t v =
    let shorter = record t {
      input_str = update t.input_str (u64 (strlen t.input_str 0 + 2 ^ 64 - 1)) 0;
    } in
    let unmarked = clear_cursor shorter in
    render_cursor-InScreen _ (
      redrawn-InScreen unmarked (clear_glyph t.glyph_height unmarked 0 unmarked.mem)
        (u32 (t.input_render_x + 2 ^ 32 - t.glyph_width)) unmarked.input_str
        (clear_cursor-InScreen shorter
          (redrawn-InScreen t t.mem t.input_render_x shorter.input_str v)))

pub term_keyevent-InScreen :
    (stacks : ℕ → Ram) (secs : ℕ) (ke : KeyEvent) (t t' : Terminal)
    → (ke.event_type == ps2_keydown && (ke.scan_code == ps2_scancode_enter)) ≡ false
    → InScreen t
    → term_keyevent stacks secs ke t ≡ some t'
    → InScreen t'
unfolding term_keyevent
term_keyevent-InScreen stacks secs ke t t' other v e =
    elim (Bool-cases (
      ke.event_type == ps2_keydown
      && (ke.scan_code == ps2_scancode_backspace)
      && not (t.input_str 0 == 0))) [
        | inl back ↦
            let same : some (backspace t) ≡ some t' = rw (other, back) at e in
            let same' : backspace t ≡ t' = cc in subst InScreen same' (backspace-InScreen t v)
        | inr keep ↦ elim (Bool-cases (ke.event_type == ps2_keydown && not (ke.ascii == 0))) [
          | inl typed ↦ type_char-InScreen ke.ascii t t' v (rw (other, keep, typed) at e)
          | inr idle ↦
              let same : some t ≡ some t' = rw (other, keep, idle) at e in
              let same' : t ≡ t' = cc in subst InScreen same' v
        ]
      ]

abbrev pub is_enter : KeyEvent → Bool
is_enter ke = ke.event_type == ps2_keydown && (ke.scan_code == ps2_scancode_enter)

pub entered :
    (stacks : ℕ → Ram) (secs : ℕ) (ke : KeyEvent) (t : Terminal)
    → is_enter ke ≡ true
    → term_keyevent stacks secs ke t ≡ enter stacks secs t
unfolding term_keyevent
entered stacks secs ke t pressed = rw pressed refl

-- The input after an event, and whether Enter gets through it.
abbrev pub next_input : KeyEvent → List ℕ → List ℕ
next_input ke s = if is_enter ke then [] else edited ke s

abbrev pub allowed : KeyEvent → List ℕ → Bool
allowed ke s = if is_enter ke then printable s else true

pub term_keyevent-next :
    (stacks : ℕ → Ram) (secs : ℕ) (ke : KeyEvent) (s : List ℕ) (t : Terminal)
    → InScreen t
    → Holds t.input_str 0 s
    → length s < 255
    → secs < 2 ^ 64
    → allowed ke s ≡ true
    → (t' : Terminal) × (term_keyevent stacks secs ke t ≡ some t')
      × InScreen t'
      × Holds t'.input_str 0 (next_input ke s)
term_keyevent-next stacks secs ke s t v h small word ok = elim (Bool-cases (is_enter ke)) [
  | inl pressed ↦
      let ok' : printable s ≡ true = rw pressed at ok in
      let (t', done, v', empty) = enter-InScreen stacks secs s t v h ok' word in
      (t', entered stacks secs ke t pressed ∙ done, v', rw pressed empty)
  | inr other ↦
      let (t', done, text) = term_keyevent-edits stacks secs ke s t other small h in
      (t', done, term_keyevent-InScreen stacks secs ke t t' other v done, rw other text)
]
