-- ===== src/Terminal/Print.antt =====
-- tprintf and term_init of src/terminal.c. The 256 bytes of the local buffer hold what the stack
-- held before, `stack`; `none` is what C leaves undefined, here a read past the end of that buffer
-- or what vsnprintf leaves undefined.
use bloreos.Base.{
  ℕ, zero, suc, ◌+◌, ◌-◌, ◌/◌, ◌^◌, Bool, true, not, List, Option, some, none, ltb, ◌==◌,
  if◌then◌else◌, Ram, u32, u64, ◌>>=◌,
}
use bloreos.Atomic.{Outcome, returns, spins, halts, faults}
use bloreos.Str.Format.{Arg, vsnprintf}
use bloreos.Terminal.{Terminal, Frame, Module, load_font, glyph_padding}
use bloreos.Terminal.Draw.{render_glyph, blank_line, move_to_next_line, render_input_line}

-- render_x > frame_buffer->width - glyph_width
abbrev pub past_edge : Terminal → ℕ → Bool
past_edge t x = ltb (u64 (t.frame.width + 2 ^ 64 - t.glyph_width)) x

-- The body of the loop of tprintf, for the character ch.
unfoldable pub print_char : ℕ → Terminal → Terminal
print_char ch t =
    let drawn = render_glyph ch t.render_x t.render_y t in
    let advanced = record drawn { render_x = u32 (t.render_x + 8 + glyph_padding) } in
    if ch == b'\n'
    then move_to_next_line t
    else if past_edge t advanced.render_x
    then move_to_next_line advanced
    else advanced

-- do ... while (*ch != '\0') from index i of the buffer, with `left` bytes of it to go.
unfoldable pub print_loop : ℕ → Ram → ℕ → Terminal → Option Terminal
print_loop zero buffer i t = none
print_loop (suc left) buffer i t =
    let t' = print_char (buffer i) t in
    let rest = print_loop left buffer (i + 1) t' in
    if left == 0 then none else if buffer (i + 1) == 0 then some t' else rest

unfoldable pub print_text : Ram → Terminal → Option Terminal
print_text buffer t =
    print_loop 256 buffer 0 (if t.render_x == 0 then blank_line t.render_y t else t)

unfoldable pub tprintf : Ram → List ℕ → List Arg → Terminal → Option Terminal
tprintf stack format args t =
    if not t.is_ready
    then some t
    else do text ← vsnprintf stack 0 256 format args; print_text text.mem t

-- What term_init does with the font.
unfoldable pub set_up : Terminal → Terminal
set_up t =
    let sized = record t {
      max_rows = u32 (t.frame.height / (t.font.char_height + glyph_padding));
      max_cols = u32 (t.frame.width / (8 + glyph_padding));
      glyph_width = 8 + glyph_padding;
      glyph_height = t.font.char_height + glyph_padding;
    } in
    let drawn = render_input_line sized in record drawn { is_ready = true }

-- With no module of the font's name the header stays NULL, and its height is read through it.
unfoldable pub term_init : Frame → List Module → Terminal → Outcome Terminal (Unit {0})
unfolding load_font set_up
term_init frame modules t = elim (load_font modules (record t { frame = frame })) [
  | returns loaded found ↦ if found then returns (set_up loaded) tt else faults
  | spins ↦ spins
  | halts stopped ↦ halts stopped
  | faults ↦ faults
]
