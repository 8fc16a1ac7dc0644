-- ===== src/Terminal/Draw.antt =====
-- Glyphs, the cursor and the input line of src/terminal.c.
use bloreos.Base.{
  ℕ, zero, suc, ◌+◌, ◌-◌, ◌*◌, ◌^◌, Bool, not, List, [], ◌∷◌, Option, some, none, ltb, ◌==◌,
  if◌then◌else◌, Ram, u32, u64,
}
use bloreos.Atomic.{spinlock_lock, spinlock_unlock}
use bloreos.Bitmap.{test_byte}
use bloreos.Terminal.{
  Frame, Terminal, fbindex, blank, put_pixel, shift_screen_up, term_fgcolor, term_default_fgcolor,
  term_cursor_color,
}

-- The inner loop of _render_glyph: the bits of a row, with `left` of them to go.
unfoldable pub render_bits : ℕ → Terminal → ℕ → ℕ → ℕ → ℕ → Ram → Ram
unfolding put_pixel test_byte
render_bits zero t row_data x y bit_index m = m
render_bits (suc left) t row_data x y bit_index m =
    render_bits left t row_data x y (bit_index + 1) (
      put_pixel t.frame (u32 (x + (8 - bit_index))) y
        (if test_byte row_data bit_index then t.fgcolor else t.bgcolor) m)

-- The outer loop, with `left` rows to go.
unfoldable pub render_rows : ℕ → Terminal → ℕ → ℕ → ℕ → Ram → Ram
unfolding render_bits
render_rows zero t data_index x y m = m
render_rows (suc left) t data_index x y m =
    render_rows left t (u32 (data_index + 1)) x (u32 (y + 1))
      (render_bits 8 t (t.font.glyph_data data_index) x y 0 m)

-- ch * bytesPerGlyph as a uint32_t; from 128 on a char is negative.
unfoldable pub glyph_index : ℕ → ℕ → ℕ
glyph_index ch bytes_per_glyph =
    if ltb ch 128 then u32 (ch * bytes_per_glyph) else u32 (2 ^ 32 - (256 - ch) * bytes_per_glyph)

unfoldable pub render_glyph : ℕ → ℕ → ℕ → Terminal → Terminal
unfolding render_rows glyph_index
render_glyph ch x y t = record t {
  mem = render_rows t.font.char_height t (glyph_index ch t.font.char_height) x y t.mem;
}

-- The loop of _clear_cursor and _render_cursor: a column of pixels.
unfoldable pub draw_column : ℕ → Frame → ℕ → ℕ → ℕ → Ram → Ram
unfolding put_pixel
draw_column zero fb x y color m = m
draw_column (suc left) fb x y color m =
    draw_column left fb x (u32 (y + 1)) color (put_pixel fb x y color m)

unfoldable pub clear_cursor : Terminal → Terminal
unfolding draw_column
clear_cursor t = record t {
  mem = draw_column t.glyph_height t.frame t.cursor_x t.cursor_y t.bgcolor t.mem;
}

unfoldable pub render_cursor : Terminal → Terminal
unfolding draw_column
render_cursor t = if not t.cursor_visible then t else record t {
  mem =
      draw_column t.glyph_height t.frame t.input_render_x t.input_render_y term_cursor_color t.mem;
  cursor_x = t.input_render_x;
  cursor_y = t.input_render_y;
}

-- term_cblink; `none` waits for the lock for ever.
unfoldable pub term_cblink : Terminal → Option Terminal
unfolding clear_cursor render_cursor spinlock_lock spinlock_unlock
term_cblink t = elim (spinlock_lock t.cursor_lock) [
  | none ↦ none
  | some held ↦
      let toggled = record t { cursor_lock = held; cursor_visible = not t.cursor_visible } in
      let drawn = render_cursor (clear_cursor toggled) in
      some (record drawn { cursor_lock = spinlock_unlock held })
]

-- The loop of _render_input_line over the characters of the prompt, each with a step to the right.
unfoldable pub render_prompt : List ℕ → Terminal → Terminal
unfolding render_glyph
render_prompt [] t = t
render_prompt (ch ∷ rest) t =
    let drawn = render_glyph ch t.input_render_x t.input_render_y t in
    render_prompt rest (record drawn { input_render_x = u32 (t.input_render_x + t.glyph_width) })

abbrev pub prompt : List ℕ
prompt = b'#' ∷ b' ' ∷ []

unfoldable pub render_input_line : Terminal → Terminal
unfolding render_prompt render_cursor term_fgcolor
render_input_line t =
    let placed = record t {
      input_render_x = 0;
      input_render_y = if ltb 0 t.render_x then u32 (t.render_y + t.glyph_height) else t.render_y;
    } in
    let written = render_prompt prompt (term_fgcolor 0x44aaff placed) in
    render_cursor (term_fgcolor term_default_fgcolor written)

-- Blanking the line of text at y.
unfoldable pub blank_line : ℕ → Terminal → Terminal
unfolding fbindex blank
blank_line y t = record t {
  mem =
      blank t.frame (fbindex t.frame 0 y)
        (fbindex t.frame (u32 t.frame.width) (u32 (y + t.glyph_height))) t.mem;
}

-- render_y > frame_buffer->height - glyph_height, where the difference has 64 bits.
abbrev pub below_screen : Terminal → ℕ → Bool
below_screen t y = ltb (u64 (t.frame.height + 2 ^ 64 - t.glyph_height)) y

-- The scroll of _move_to_next_line.
unfoldable pub scroll : Terminal → Terminal
scroll t =
    let shifted = shift_screen_up t in
    if below_screen t t.render_y
    then record shifted { render_y = u32 (t.render_y + 2 ^ 32 - t.glyph_height) }
    else t

unfoldable pub move_to_next_line : Terminal → Terminal
move_to_next_line t =
    let cleared = if t.render_x == 0 then blank_line t.render_y t else t in
    let next =
      scroll (record cleared { render_x = 0; render_y = u32 (t.render_y + t.glyph_height) }) in
    render_input_line (blank_line next.render_y next)
