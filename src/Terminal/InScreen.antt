-- ===== src/Terminal/InScreen.antt =====
-- Where src/terminal.c prints: the text position stays on the screen.
use bloreos.Base.{
  ℕ, ◌+◌, ◌-◌, ◌≤◌, ◌<◌, ◌^◌, ◌≡◌, refl, ap, ◌∙◌, true, List, [], ◌∷◌, some, ◌==◌, if◌then◌else◌,
  Ram, u32, arith, Bool-cases, inl, inr, length,
}
use bloreos.Str.Format.{Arg}
use bloreos.Str.Format.Plain.{plain}
use bloreos.Terminal.{Terminal, Frame, shift_screen_up}
use bloreos.Terminal.Draw.{
  render_glyph, render_input_line, blank_line, scroll, move_to_next_line, below_screen,
}
use bloreos.Terminal.Print.{past_edge, print_char, tprintf}
use bloreos.Terminal.Kept.{
  Kept, kept_through, Kept-shift_screen_up, Kept-render_glyph, Kept-render_input_line,
  Kept-blank_line,
}
use bloreos.Terminal.Lines.{print_chars, start_line, no_zero, tprintf_lem}

-- A terminal that is ready, on a screen with room for a glyph, whose next character fits on the
-- screen.
pub record InScreen (t : Terminal) : Type 0 where
  pub ready : t.is_ready ≡ true
  pub cell : t.glyph_width ≡ 9
  pub narrow : t.frame.width < 2 ^ 31
  pub low : t.frame.height < 2 ^ 31
  pub x_in : t.render_x + t.glyph_width ≤ t.frame.width
  pub y_in : t.render_y + t.glyph_height ≤ t.frame.height

pub InScreen-Kept : (t t' : Terminal) → Kept t t' → InScreen t → InScreen t'
InScreen-Kept t t' k v =
    let w = ap (λ (f : Frame). f.width) k.0 in
    let h = ap (λ (f : Frame). f.height) k.0 in
    record {
      ready = k.4 ∙ v.ready;
      cell = k.2 ∙ v.cell;
      narrow = omega (arith, v.narrow, w);
      low = omega (arith, v.low, h);
      x_in = omega (arith, v.x_in, k.5, k.2, w);
      y_in = omega (arith, v.y_in, k.6, k.3, h);
    }

-- A terminal on a fresh line, which may be one line below the screen.
record Fresh (t : Terminal) : Type 0 where
  ready : t.is_ready ≡ true
  cell : t.glyph_width ≡ 9
  narrow : t.frame.width < 2 ^ 31
  low : t.frame.height < 2 ^ 31
  at_start : t.render_x ≡ 0
  wide : 9 ≤ t.frame.width
  tall : t.glyph_height ≤ t.frame.height
  y_near : t.render_y ≤ t.frame.height
  under_line : t.glyph_height ≤ t.render_y

scroll-InScreen : (t : Terminal) → Fresh t → InScreen (scroll t)
unfolding scroll
scroll-InScreen t v =
    let moved = shift_screen_up t in
    let k = Kept-shift_screen_up t in
    let w = ap (λ (f : Frame). f.width) k.0 in
    let h = ap (λ (f : Frame). f.height) k.0 in
    elim (Bool-cases (below_screen t t.render_y)) [
      | inl below ↦
          let under : t.frame.height - t.glyph_height < t.render_y =
            ground (arith, below, v.low, v.tall) in
          rw below (record {
            ready = k.4 ∙ v.ready;
            cell = k.2 ∙ v.cell;
            narrow = omega (arith, v.narrow, w);
            low = omega (arith, v.low, h);
            x_in = omega (arith, v.wide, k.5, k.2, w, v.at_start, v.cell);
            y_in = omega (arith, v.y_near, v.under_line, v.tall, v.low, under, k.3, h);
          })
      | inr fits ↦
          let over : t.render_y ≤ t.frame.height - t.glyph_height =
            ground (arith, fits, v.low, v.tall) in
          rw fits (record {
            ready = v.ready;
            cell = v.cell;
            narrow = v.narrow;
            low = v.low;
            x_in = omega (arith, v.wide, v.at_start, v.cell);
            y_in = omega (arith, over, v.tall);
          })
    ]

-- The state that move_to_next_line scrolls.
abbrev next_line : Terminal → Terminal
next_line t =
    let cleared = if t.render_x == 0 then blank_line t.render_y t else t in
    record cleared { render_x = 0; render_y = u32 (t.render_y + t.glyph_height) }

-- As in InScreen, without the place of the next character in its line.
Fresh-next_line :
    (t : Terminal)
    → t.is_ready ≡ true
    → t.glyph_width ≡ 9
    → t.frame.width < 2 ^ 31
    → t.frame.height < 2 ^ 31
    → 9 ≤ t.frame.width
    → t.render_y + t.glyph_height ≤ t.frame.height
    → Fresh (next_line t)
Fresh-next_line t ready cell narrow low wide y_in =
    let small : u32 (t.render_y + t.glyph_height) ≡ t.render_y + t.glyph_height =
      omega (arith, y_in, low) in
    let tall : t.glyph_height ≤ t.frame.height = omega (arith, y_in) in
    let y_near : u32 (t.render_y + t.glyph_height) ≤ t.frame.height = omega (arith, y_in, small) in
    let k = Kept-blank_line t.render_y t in
    elim (Bool-cases (t.render_x == 0)) [
      | inl start ↦
          let w = ap (λ (f : Frame). f.width) k.0 in
          let h = ap (λ (f : Frame). f.height) k.0 in
          rw start (record {
            ready = k.4 ∙ ready;
            cell = k.2 ∙ cell;
            narrow = omega (arith, narrow, w);
            low = omega (arith, low, h);
            at_start = refl;
            wide = omega (arith, wide, w);
            tall = omega (arith, tall, k.3, h);
            y_near = omega (arith, y_near, h);
            under_line = omega (arith, small, k.3);
          })
      | inr on ↦ rw on (record {
        ready = ready;
        cell = cell;
        narrow = narrow;
        low = low;
        at_start = refl;
        wide = wide;
        tall = tall;
        y_near = y_near;
        under_line = omega (arith, small);
      })
    ]

move-InScreen : (t : Terminal) → Fresh (next_line t) → InScreen (move_to_next_line t)
unfolding move_to_next_line
move-InScreen t v =
    let next = scroll (next_line t) in
    InScreen-Kept next (render_input_line (blank_line next.render_y next))
      (kept_through next (blank_line next.render_y next)
        (render_input_line (blank_line next.render_y next)) (Kept-blank_line next.render_y next)
        (Kept-render_input_line (blank_line next.render_y next)))
      (scroll-InScreen (next_line t) v)

pub print_char-InScreen : (c : ℕ) (t : Terminal) → InScreen t → InScreen (print_char c t)
unfolding print_char
print_char-InScreen c t v =
    let drawn = render_glyph c t.render_x t.render_y t in
    let advanced = record drawn { render_x = u32 (t.render_x + 8 + 1) } in
    let k = Kept-render_glyph c t.render_x t.render_y t in
    let w = ap (λ (f : Frame). f.width) k.0 in
    let h = ap (λ (f : Frame). f.height) k.0 in
    let step : u32 (t.render_x + 8 + 1) ≡ t.render_x + 9 =
      omega (arith, v.x_in, v.narrow, v.cell) in
    elim (Bool-cases (c == b'\n')) [
      | inl newline ↦ rw newline (
          move-InScreen t (
            Fresh-next_line t v.ready v.cell v.narrow v.low (omega (arith, v.x_in, v.cell)) v.y_in))
      | inr text ↦ rw text (elim (Bool-cases (past_edge t advanced.render_x)) [
        | inl past ↦ rw past (
            move-InScreen advanced (
              Fresh-next_line advanced (k.4 ∙ v.ready) (k.2 ∙ v.cell) (omega (arith, v.narrow, w))
                (omega (arith, v.low, h)) (omega (arith, v.x_in, v.cell, w))
                (omega (arith, v.y_in, k.6, k.3, h))))
        | inr inside ↦
            let room : t.render_x + 9 ≤ t.frame.width - 9 =
              ground (arith, inside, step, v.cell, v.narrow, v.x_in) in
            rw inside (record {
              ready = k.4 ∙ v.ready;
              cell = k.2 ∙ v.cell;
              narrow = omega (arith, v.narrow, w);
              low = omega (arith, v.low, h);
              x_in = omega (arith, room, step, k.2, v.cell, v.x_in, w);
              y_in = omega (arith, v.y_in, k.6, k.3, h);
            })
      ])
    ]

pub print_chars-InScreen : (s : List ℕ) (t : Terminal) → InScreen t → InScreen (print_chars s t)
print_chars-InScreen [] t v = v
print_chars-InScreen (c ∷ s) t v =
    print_chars-InScreen s (print_char c t) (print_char-InScreen c t v)

pub start_line-InScreen : (t : Terminal) → InScreen t → InScreen (start_line t)
start_line-InScreen t v = elim (Bool-cases (t.render_x == 0)) [
  | inl start ↦
      rw start (InScreen-Kept t (blank_line t.render_y t) (Kept-blank_line t.render_y t) v)
  | inr on ↦ rw on v
]

-- On a screen whose next character fits, tprintf prints a text of 1 to 255 characters without
-- conversions and zeros to its end, and the next character fits on the screen again: lines are
-- broken at the edge and the screen is scrolled at the bottom.
pub tprintf-InScreen :
    (stack : Ram) (c : ℕ) (s : List ℕ) (args : List Arg) (t : Terminal)
    → InScreen t
    → length s < 255
    → plain (c ∷ s) ≡ true
    → no_zero (c ∷ s) ≡ true
    → (t' : Terminal) × (tprintf stack (c ∷ s) args t ≡ some t') × InScreen t'
tprintf-InScreen stack c s args t v small p n = (
  print_chars (c ∷ s) (start_line t),
  tprintf_lem stack c s args t v.ready small p n,
  print_chars-InScreen (c ∷ s) (start_line t) (start_line-InScreen t v),
)
