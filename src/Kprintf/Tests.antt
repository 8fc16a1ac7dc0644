-- ===== src/Kprintf/Tests.antt =====
-- A text of two characters on a screen of 20 by 20 pixels.
use bloreos.Kprintf.Lines.{print_lines, plain_lines, line_polls, all_sent, shown, print_lines-sent}
use bloreos.Base.{ℕ, ◌≡◌, refl, true, List, [], ◌∷◌, some, Ram, arith}
use bloreos.Terminal.{Frame, Terminal}
use bloreos.Terminal.InScreen.{InScreen}

abbrev zeros : Ram
zeros a = 0

abbrev small_frame : Frame
small_frame = record { address = 4096; width = 20; height = 20; pitch = 80 }

abbrev with_input : Ram → Terminal
with_input input = record {
  mem = λ a. 7;
  frame = small_frame;
  font = record { magic = 0x0436; char_height = 9; glyph_data = zeros };
  max_rows = 2;
  max_cols = 2;
  glyph_width = 9;
  glyph_height = 10;
  is_ready = true;
  fgcolor = 0xcccccc;
  bgcolor = 0;
  render_x = 0;
  render_y = 10;
  input_render_x = 0;
  input_render_y = 0;
  cursor_x = 0;
  cursor_y = 0;
  input_str = input;
  cursor_lock = 0;
  cursor_visible = true;
}

small-InScreen : (input : Ram) → InScreen (with_input input)
small-InScreen input = record {
  ready = refl;
  cell = refl;
  narrow = omega arith;
  low = omega arith;
  x_in = omega arith;
  y_in = omega arith;
}

abbrev hi : List ℕ
hi = b'h' ∷ b'i' ∷ []

abbrev hi_twice : List (List ℕ)
hi_twice = hi ∷ hi ∷ []

abbrev waits : List (List ℕ)
waits = (0 ∷ 3 ∷ []) ∷ (1 ∷ 0 ∷ []) ∷ []

print_lines-sent_example :
    (print_lines
        (λ n. zeros)
        (λ n. zeros)
        0
        (plain_lines hi_twice)
        (record { answers = line_polls 0x60 waits []; effects = [] })
        (with_input zeros)
      ≡ some (
        record { answers = []; effects = all_sent hi_twice [] },
        shown hi_twice (with_input zeros),
      ))
    × InScreen (shown hi_twice (with_input zeros))
print_lines-sent_example =
    print_lines-sent hi_twice waits (λ n. zeros) (λ n. zeros) 0 0x60 [] [] (with_input zeros)
      (small-InScreen zeros) refl (omega arith)
