-- ===== src/Terminal/Input.antt =====
-- term_clear, _handle_cmd and term_keyevent of src/terminal.c. Every call of tprintf finds some
-- bytes on the stack: `stacks` has those of one call after the other.
use bloreos.Base.{
  ℕ, zero, suc, ◌+◌, ◌-◌, ◌/◌, ◌^◌, Bool, true, false, not, ◌&&◌, List, [], ◌∷◌, Option, some, none,
  ltb, ◌==◌, if◌then◌else◌, Ram, update, u32, u64, ◌>>=◌,
}
use bloreos.Str.{Ordered, equal, unequal, strlen, strcmp}
use bloreos.Str.Format.{word_arg}
use bloreos.Ps2.Keys.{KeyEvent}
use bloreos.Terminal.{Terminal, fbindex, blank, clear_screen}
use bloreos.Terminal.Draw.{clear_cursor, render_cursor, render_glyph, render_input_line}
use bloreos.Terminal.Print.{tprintf}

-- All places at the top left.
abbrev pub at_origin : Terminal → Terminal
at_origin t = record t {
  render_x = 0;
  render_y = 0;
  input_render_x = 0;
  input_render_y = 0;
  cursor_x = 0;
  cursor_y = 0;
}

unfoldable pub term_clear : Terminal → Terminal
term_clear t = render_input_line (at_origin (clear_screen t))

-- What the input asks for.
pub data Command : Type 0 where
  hello cls time stime unknown : Command

abbrev pub is_equal : Ordered → Bool
is_equal equal = true
is_equal unequal = false

-- The chain of comparisons of _handle_cmd.
unfoldable pub command : Ram → Command
command input =
    if is_equal (strcmp input 0 (b'h' ∷ b'e' ∷ b'l' ∷ b'l' ∷ b'o' ∷ []))
    then hello
    else if is_equal (strcmp input 0 (b'c' ∷ b'l' ∷ b's' ∷ []))
    then cls
    else if is_equal (strcmp input 0 (b't' ∷ b'i' ∷ b'm' ∷ b'e' ∷ []))
    then time
    else if is_equal (strcmp input 0 (b's' ∷ b't' ∷ b'i' ∷ b'm' ∷ b'e' ∷ []))
    then stime
    else unknown

abbrev pub world_text : List ℕ
world_text = b'W' ∷ b'o' ∷ b'r' ∷ b'l' ∷ b'd' ∷ b'!' ∷ 10 ∷ []

-- "Kerner Time: %lu" before the unit.
abbrev pub time_text : List ℕ → List ℕ
time_text unit =
    b'K' ∷ b'e' ∷ b'r' ∷ b'n' ∷ b'e' ∷ b'r' ∷ b' ' ∷ b'T' ∷ b'i' ∷ b'm' ∷ b'e' ∷ b':' ∷ b' ' ∷ b'%'
    ∷ b'l' ∷ b'u' ∷ unit

abbrev pub unknown_text : List ℕ
unknown_text =
    b'U' ∷ b'n' ∷ b'k' ∷ b'n' ∷ b'o' ∷ b'w' ∷ b'n' ∷ b' ' ∷ b'c' ∷ b'o' ∷ b'm' ∷ b'm' ∷ b'a' ∷ b'n'
    ∷ b'd' ∷ b'.' ∷ 10 ∷ []

unfoldable pub run_command : Command → Ram → ℕ → Terminal → Option Terminal
run_command hello stack kernel_timer_secs t = tprintf stack world_text [] t
run_command cls stack kernel_timer_secs t = some (term_clear t)
run_command time stack kernel_timer_secs t =
    tprintf stack (time_text (b'm' ∷ b's' ∷ 10 ∷ [])) (word_arg kernel_timer_secs ∷ []) t
run_command stime stack kernel_timer_secs t =
    tprintf stack (time_text (b's' ∷ 10 ∷ [])) (word_arg (kernel_timer_secs / 1000) ∷ []) t
run_command unknown stack kernel_timer_secs t = tprintf stack unknown_text [] t

unfoldable pub handle_cmd : Ram → ℕ → Terminal → Option Terminal
handle_cmd stack kernel_timer_secs t = run_command (command t.input_str) stack kernel_timer_secs t

-- The bytes from index i of the array up to the first zero, which a format is.
unfoldable pub string_at : ℕ → Ram → ℕ → List ℕ
string_at zero m i = []
string_at (suc left) m i =
    let rest = m i ∷ string_at left m (i + 1) in if m i == 0 then [] else rest

-- Enter: the echo of the command, the command, and an empty input.
unfoldable pub enter : (ℕ → Ram) → ℕ → Terminal → Option Terminal
enter stacks kernel_timer_secs t = do
  marked ← tprintf (stacks 0) (b'#' ∷ b' ' ∷ []) [] t
  echoed ← tprintf (stacks 1) (string_at 256 marked.input_str 0) [] marked
  ended ← tprintf (stacks 2) (10 ∷ []) [] echoed
  done ← handle_cmd (stacks 3) kernel_timer_secs ended
  some (record done { input_str = update done.input_str 0 0 })

-- The loop that clears the last glyph of the input, a row of pixels after the other.
unfoldable pub clear_glyph : ℕ → Terminal → ℕ → Ram → Ram
unfolding blank fbindex
clear_glyph zero t y m = m
clear_glyph (suc left) t y m = clear_glyph left t (u32 (y + 1)) (
    blank t.frame
      (fbindex t.frame (u32 (t.input_render_x + 2 ^ 32 - t.glyph_width))
        (u32 (t.input_render_y + y)))
      (fbindex t.frame t.input_render_x (u32 (t.input_render_y + y))) m)

-- Backspace on an input that is not empty.
unfoldable pub backspace : Terminal → Terminal
backspace t =
    let shorter = record t {
      input_str = update t.input_str (u64 (strlen t.input_str 0 + 2 ^ 64 - 1)) 0;
    } in
    let unmarked = clear_cursor shorter in
    render_cursor (record unmarked {
      mem = clear_glyph t.glyph_height unmarked 0 unmarked.mem;
      input_render_x = u32 (t.input_render_x + 2 ^ 32 - t.glyph_width);
    })

-- A character: `none` is a write past the 256 bytes of the array.
unfoldable pub type_char : ℕ → Terminal → Option Terminal
type_char ch t =
    let drawn = render_glyph ch t.input_render_x t.input_render_y t in
    let len = strlen t.input_str 0 in
    if ltb (len + 1) 256
    then some (
        render_cursor (
          clear_cursor (record drawn {
            input_render_x = u32 (t.input_render_x + t.glyph_width);
            input_str = update (update t.input_str len ch) (len + 1) 0;
          })))
    else none

abbrev pub ps2_keydown : ℕ
ps2_keydown = 0

abbrev pub ps2_scancode_backspace : ℕ
ps2_scancode_backspace = 14

abbrev pub ps2_scancode_enter : ℕ
ps2_scancode_enter = 28

unfoldable pub term_keyevent : (ℕ → Ram) → ℕ → KeyEvent → Terminal → Option Terminal
term_keyevent stacks kernel_timer_secs ke t =
    let down = ke.event_type == ps2_keydown in
    if down && (ke.scan_code == ps2_scancode_enter)
    then enter stacks kernel_timer_secs t
    else if down && (ke.scan_code == ps2_scancode_backspace) && not (t.input_str 0 == 0)
    then some (backspace t)
    else if down && not (ke.ascii == 0)
    then type_char ke.ascii t
    else some t
