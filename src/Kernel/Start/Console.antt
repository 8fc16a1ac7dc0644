-- ===== src/Kernel/Start/Console.antt =====
-- The screen during the start of src/kernel.c: term_init, and what is printed after it.
use bloreos.Base.{
  ℕ, ◌≤◌, ◌<◌, ◌^◌, ◌≡◌, refl, ap, sym, subst, ◌∙◌, Bool, true, false, ltb, ◌==◌, ◌&&◌, List, [],
  ◌∷◌, some, Ram, Bool-cases, inl, inr, arith, bind_some,
}
use bloreos.Atomic.{Outcome, returns, spins, halts, faults}
use bloreos.Str.Format.{Arg, vsnprintf}
use bloreos.Ps2.{Io}
use bloreos.Serial.{write_serial_str}
use bloreos.Kprintf.{port_com1, kprintf, log_text}
use bloreos.Terminal.{
  Terminal, Frame, Module, Font, font_path, starts_with, load_font, term_fgcolor,
}
use bloreos.Terminal.Print.{set_up, term_init}
use bloreos.Terminal.Kept.{Kept-render_input_line}
use bloreos.Terminal.InScreen.{InScreen}
use bloreos.Terminal.StaysIn.{StaysIn, stays_through, tprintf-StaysIn}
use bloreos.Kernel.Start.{Prints, quiet, coloured, printed}

-- Each font is lower than a screen of this height.
abbrev pub all_low : ℕ → List Module → Bool
all_low height [] = true
all_low height (m ∷ ms) = ltb m.file.char_height height && all_low height ms

-- _load_font sets the font, to one of the modules'.
load_font_lem :
    (ms : List Module) (height : ℕ) (t t' : Terminal)
    → all_low height ms ≡ true
    → load_font ms t ≡ returns t' true
    → (file : Font) × (file.char_height < height) × (t' ≡ record t { font = file })
unfolding load_font
load_font_lem [] height t t' low e = absurd cc
load_font_lem (m ∷ ms) height t t' low e = elim (Bool-cases (starts_with font_path m.path)) [
  | inl named ↦ elim (Bool-cases (m.file.magic == 0x0436)) [
    | inl right ↦
        let same : returns (record t { font = m.file }) true ≡ returns t' true =
          rw (named, right) at e in
        let same' : record t { font = m.file } ≡ t' = cc in (m.file, ground (arith, low), sym same')
    | inr wrong ↦
        let stopped : halts (record t { font = m.file }) ≡ returns t' true =
          rw (named, wrong) at e in
        absurd cc
  ]
  | inr other ↦ load_font_lem ms height t t' (ground (arith, low)) (rw other at e)
]

-- The globals of the screen before term_init, but for the font.
pub set_up-InScreen :
    (t : Terminal)
    → t.render_x ≡ 0
    → t.render_y ≡ 0
    → 9 ≤ t.frame.width
    → t.frame.width < 2 ^ 31
    → t.font.char_height < t.frame.height
    → t.frame.height < 2 ^ 31
    → InScreen (set_up t) × ((set_up t).input_str ≡ t.input_str)
unfolding set_up
set_up-InScreen t x y wide narrow low short =
    let k = Kept-render_input_line _ in
    let w = ap (λ (f : Frame). f.width) k.0 in
    let h = ap (λ (f : Frame). f.height) k.0 in
    (
      record {
        ready = refl;
        cell = k.2;
        narrow = omega (arith, narrow, w);
        low = omega (arith, short, h);
        x_in = omega (arith, wide, k.5, k.2, w, x);
        y_in = omega (arith, low, k.6, k.3, h, y);
      },
      k.7,
    )

fgcolor-InScreen : (color : ℕ) (t : Terminal) → InScreen t → InScreen (term_fgcolor color t)
unfolding term_fgcolor
fgcolor-InScreen color t v = record {
  ready = v.ready;
  cell = v.cell;
  narrow = v.narrow;
  low = v.low;
  x_in = v.x_in;
  y_in = v.y_in;
}

fgcolor_text : (color : ℕ) (t : Terminal) → (term_fgcolor color t).input_str ≡ t.input_str
unfolding term_fgcolor
fgcolor_text color t = refl

kprintf-StaysIn :
    (stack below : Ram) (format : List ℕ) (args : List Arg) (s s' : Io) (t t' : Terminal)
    → InScreen t
    → kprintf stack below format args s t ≡ some (s', t')
    → StaysIn t t'
unfolding kprintf log_text
kprintf-StaysIn stack below format args s s' t t' v e =
    let (text, made, e1) = bind_some (vsnprintf stack 0 256 format args) _ (s', t') e in
    let (s1, sent, e2) = bind_some (write_serial_str port_com1 text.mem 0 s) _ (s', t') e1 in
    let (t1, drawn, e3) = bind_some _ _ (s', t') e2 in
    let same : t1 ≡ t' = cc in subst (StaysIn t) same (tprintf-StaysIn below _ _ t t1 v drawn)

pub Prints-StaysIn :
    {s' : Io} {t' : Terminal} {s : Io} {t : Terminal} → InScreen t → Prints s' t' s t → StaysIn t t'
Prints-StaysIn v quiet = record { screen = v; input = refl }
Prints-StaysIn {t' = t'} {t = t} v (coloured color p) =
    let w = Prints-StaysIn (fgcolor-InScreen color t v) p in
    record { screen = w.screen; input = w.input ∙ fgcolor_text color t }
Prints-StaysIn {t' = t'} {t = t} v
      (printed {s = s} {s1 = s1} {t1 = t1} stack below format args e p) =
    let w = kprintf-StaysIn stack below format args s s1 t t1 v e in
    stays_through t t1 t' w (Prints-StaysIn w.screen p)

pub term_init_lem :
    (frame : Frame) (ms : List Module) (t t' : Terminal)
    → all_low frame.height ms ≡ true
    → term_init frame ms t ≡ returns t' tt
    → (file : Font) × (file.char_height < frame.height)
      × (t' ≡ set_up (record t { frame = frame; font = file }))
unfolding term_init
term_init_lem frame ms t t' low e = found (load_font ms (record t { frame = frame })) refl
  where
    found :
        (o : Outcome Terminal Bool)
        → load_font ms (record t { frame = frame }) ≡ o
        → (file : Font) × (file.char_height < frame.height)
          × (t' ≡ set_up (record t { frame = frame; font = file }))
    found (returns loaded true) l =
        let same : returns (set_up loaded) tt ≡ returns t' tt = rw (term_init, l) at e in
        let same' : set_up loaded ≡ t' = cc in
        let (file, small, made) =
          load_font_lem ms frame.height (record t { frame = frame }) loaded low l in
        (file, small, sym same' ∙ ap set_up made)
    found (returns loaded false) l =
        let bad : faults ≡ returns t' tt = rw (term_init, l) at e in absurd cc
    found spins l = let bad : spins ≡ returns t' tt = rw (term_init, l) at e in absurd cc
    found (halts stopped) l =
        let bad : halts stopped ≡ returns t' tt = rw (term_init, l) at e in absurd cc
    found faults l = let bad : faults ≡ returns t' tt = rw (term_init, l) at e in absurd cc
