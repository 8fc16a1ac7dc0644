-- ===== src/Terminal/Tests.antt =====
-- The terminal on a screen of 20 by 20 pixels, with two lines of text above each other.
use bloreos.Terminal.Enter.{print_step}
use bloreos.Terminal.StaysIn.{StaysIn, tprintf-StaysIn}
use bloreos.Terminal.Typed.{next_input}
use bloreos.Terminal.Room.{term_keyevent-fits}
use bloreos.Base.{
  ℕ, zero, suc, ◌<◌, ◌==◌, ◌+◌, ◌*◌, ◌≡◌, refl, true, List, [], ◌∷◌, some, none, if◌then◌else◌, ltb,
  Ram, arith, length,
}
use bloreos.Str.Compare.{Holds}
use bloreos.Ps2.Keys.{KeyEvent, key}
use bloreos.Terminal.{Frame, Terminal, shift_screen_up, pixel_at, fbindex}
use bloreos.Terminal.Print.{tprintf}
use bloreos.Terminal.Input.{term_keyevent}
use bloreos.Terminal.InScreen.{InScreen}
use bloreos.Terminal.Scroll.{Fits, stride, shift_screen_up_lem, shift_screen_up-overrun}
use bloreos.Terminal.Edit.{edited, term_keyevent-edits, term_keyevent-full}

abbrev zeros : Ram
zeros a = 0

abbrev small_frame : Frame
small_frame = record { address = 4096; width = 20; height = 20; pitch = 80 }

abbrev with_input : Ram → Terminal
with_input input = record {
  mem = λ a. 7;
  frame = small_frame;
  font = record { magic = 0x0436; char_height = 9; glyph_data = zeros };
  max_rows = 2;
  max_cols = 2;
  glyph_width = 9;
  glyph_height = 10;
  is_ready = true;
  fgcolor = 0xcccccc;
  bgcolor = 0;
  render_x = 0;
  render_y = 10;
  input_render_x = 0;
  input_render_y = 0;
  cursor_x = 0;
  cursor_y = 0;
  input_str = input;
  cursor_lock = 0;
  cursor_visible = true;
}

-- The input `hi`.
abbrev hi_bytes : Ram
hi_bytes i = if i == 0 then b'h' else if i == 1 then b'i' else 0

abbrev hi : List ℕ
hi = b'h' ∷ b'i' ∷ []

hi-Holds : Holds hi_bytes 0 hi
hi-Holds = (refl, omega arith, (refl, omega arith, refl))

small-InScreen : (input : Ram) → InScreen (with_input input)
small-InScreen input = record {
  ready = refl;
  cell = refl;
  narrow = omega arith;
  low = omega arith;
  x_in = omega arith;
  y_in = omega arith;
}

small-Fits : Fits small_frame
small-Fits = record { narrow = omega arith; low = omega arith; indexed = omega arith }

shift_screen_up_lem_example :
    (shift_screen_up (with_input zeros)).mem (pixel_at small_frame (fbindex small_frame 3 4) + 2)
    ≡ (if ltb (4 + 10) 20
        then (with_input zeros).mem (pixel_at small_frame (fbindex small_frame 3 (4 + 10)) + 2)
        else 0)
shift_screen_up_lem_example =
    shift_screen_up_lem (with_input zeros) 3 4 2 small-Fits (omega arith) (omega arith)
      (omega arith) (omega arith)

shift_screen_up-overrun_example :
    (shift_screen_up (with_input zeros)).mem
      (pixel_at small_frame (20 * stride small_frame + 5) + 1)
    ≡ 0
shift_screen_up-overrun_example =
    shift_screen_up-overrun (with_input zeros) 5 1 small-Fits (omega arith) (omega arith)
      (omega arith)

-- The key `a`.
abbrev a_key : KeyEvent
a_key = key 30 0 b'a'

term_keyevent-edits_example :
    (t' : Terminal) × (term_keyevent (λ n. zeros) 0 a_key (with_input hi_bytes) ≡ some t')
    × Holds t'.input_str 0 (edited a_key hi)
term_keyevent-edits_example =
    term_keyevent-edits (λ n. zeros) 0 a_key hi (with_input hi_bytes) refl (omega arith) hi-Holds

-- An input of 255 characters.
abbrev xs : ℕ → List ℕ
xs zero = []
xs (suc n) = b'x' ∷ xs n

abbrev xs_bytes : Ram
xs_bytes i = if ltb i 255 then b'x' else 0

xs-Holds : (n i : ℕ) → i + n ≡ 255 → Holds xs_bytes i (xs n)
xs-Holds zero i e = ground arith
xs-Holds (suc n) i e = (ground arith, omega arith, xs-Holds n (i + 1) (omega arith))

length-xs : (n : ℕ) → length (xs n) ≡ n
length-xs zero = refl
length-xs (suc n) = omega (arith, length-xs n)

full_input : term_keyevent (λ n. zeros) 0 a_key (with_input xs_bytes) ≡ none
full_input =
    term_keyevent-full (λ n. zeros) 0 a_key (xs 255) (with_input xs_bytes) refl (omega arith)
      (omega arith) (omega arith) (length-xs 255) (xs-Holds 255 0 (omega arith))

shown :
    (t' : Terminal) × (tprintf zeros hi [] (with_input zeros) ≡ some t')
    × InScreen t'
    × (t'.input_str ≡ zeros)
shown = print_step zeros hi [] (with_input zeros) (small-InScreen zeros) refl

tprintf-StaysIn_example : StaysIn (with_input zeros) shown.0
tprintf-StaysIn_example =
    tprintf-StaysIn zeros hi [] (with_input zeros) shown.0 (small-InScreen zeros) shown.1

a_typed :
    (t' : Terminal) × (term_keyevent (λ n. zeros) 0 a_key (with_input hi_bytes) ≡ some t')
    × Holds t'.input_str 0 (edited a_key hi)
a_typed =
    term_keyevent-edits (λ n. zeros) 0 a_key hi (with_input hi_bytes) refl (omega arith) hi-Holds

fitting_input :
    InScreen a_typed.0
    × Holds a_typed.0.input_str 0 (next_input a_key hi)
    × (length (next_input a_key hi) < 256)
fitting_input =
    term_keyevent-fits (λ n. zeros) 0 a_key hi (with_input hi_bytes) a_typed.0
      (small-InScreen hi_bytes) hi-Holds (omega arith) a_typed.1
