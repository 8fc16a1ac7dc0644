-- ===== src/Terminal/Kept.antt =====
-- Drawing, in src/terminal.c, changes the pixels, the colours, the cursor and the place of the input
-- line only.
use bloreos.Base.{
  ℕ, ◌+◌, ◌≡◌, refl, ◌∙◌, not, List, [], ◌∷◌, ltb, if◌then◌else◌, u32, Bool-cases, inl, inr,
}
use bloreos.Terminal.{Terminal, term_fgcolor, term_default_fgcolor, shift_screen_up}
use bloreos.Terminal.Draw.{
  render_glyph, render_prompt, render_input_line, render_cursor, clear_cursor, blank_line, prompt,
}

-- The fields of t' that are those of t: frame, font, glyph_width, glyph_height, is_ready, render_x,
-- render_y and input_str.
abbrev pub Kept : Terminal → Terminal → Type 0
Kept t t' =
    (t'.frame ≡ t.frame)
    × (t'.font ≡ t.font)
    × (t'.glyph_width ≡ t.glyph_width)
    × (t'.glyph_height ≡ t.glyph_height)
    × (t'.is_ready ≡ t.is_ready)
    × (t'.render_x ≡ t.render_x)
    × (t'.render_y ≡ t.render_y)
    × (t'.input_str ≡ t.input_str)

abbrev kept_all : (t : Terminal) → Kept t t
kept_all t = (refl, refl, refl, refl, refl, refl, refl, refl)

pub kept_through : (t u v : Terminal) → Kept t u → Kept u v → Kept t v
kept_through t u v k l =
    (l.0 ∙ k.0, l.1 ∙ k.1, l.2 ∙ k.2, l.3 ∙ k.3, l.4 ∙ k.4, l.5 ∙ k.5, l.6 ∙ k.6, l.7 ∙ k.7)

pub Kept-render_glyph : (ch x y : ℕ) (t : Terminal) → Kept t (render_glyph ch x y t)
unfolding render_glyph
Kept-render_glyph ch x y t = kept_all t

pub Kept-clear_cursor : (t : Terminal) → Kept t (clear_cursor t)
unfolding clear_cursor
Kept-clear_cursor t = kept_all t

pub Kept-render_cursor : (t : Terminal) → Kept t (render_cursor t)
unfolding render_cursor
Kept-render_cursor t = elim (Bool-cases (not t.cursor_visible)) [
  | inl hidden ↦ rw hidden (kept_all t)
  | inr shown ↦ rw shown (kept_all t)
]

pub Kept-blank_line : (y : ℕ) (t : Terminal) → Kept t (blank_line y t)
unfolding blank_line
Kept-blank_line y t = kept_all t

Kept-render_prompt : (s : List ℕ) (t : Terminal) → Kept t (render_prompt s t)
unfolding render_prompt
Kept-render_prompt [] t = kept_all t
Kept-render_prompt (c ∷ s) t =
    let drawn = render_glyph c t.input_render_x t.input_render_y t in
    let next = record drawn { input_render_x = u32 (t.input_render_x + t.glyph_width) } in
    kept_through t next (render_prompt s next)
      (Kept-render_glyph c t.input_render_x t.input_render_y t) (Kept-render_prompt s next)

pub Kept-render_input_line : (t : Terminal) → Kept t (render_input_line t)
unfolding render_input_line term_fgcolor
Kept-render_input_line t =
    let placed = record t {
      input_render_x = 0;
      input_render_y = if ltb 0 t.render_x then u32 (t.render_y + t.glyph_height) else t.render_y;
    } in
    let written = render_prompt prompt (term_fgcolor 0x44aaff placed) in
    kept_through t written (render_cursor (term_fgcolor term_default_fgcolor written))
      (Kept-render_prompt prompt (term_fgcolor 0x44aaff placed))
      (Kept-render_cursor (term_fgcolor term_default_fgcolor written))

pub Kept-shift_screen_up : (t : Terminal) → Kept t (shift_screen_up t)
unfolding shift_screen_up
Kept-shift_screen_up t = kept_all t
