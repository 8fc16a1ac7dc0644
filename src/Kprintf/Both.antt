-- ===== src/Kprintf/Both.antt =====
-- The two outputs of kprintf of src/lib/str.c.
use bloreos.Base.{ℕ, ◌<◌, ◌≡◌, ◌≢◌, refl, true, List, [], ◌∷◌, some, Ram, length, arith, bit_and}
use bloreos.Ps2.{Effect}
use bloreos.Str.Format.{Arg}
use bloreos.Str.Format.Plain.{plain, vsnprintf-Printed}
use bloreos.Serial.Sent.{all_polls, sent, write_serial_str-sent}
use bloreos.Terminal.{Terminal}
use bloreos.Terminal.Lines.{no_zero, Holds-Printed, print_chars, start_line, tprintf_lem}
use bloreos.Terminal.InScreen.{InScreen, print_chars-InScreen, start_line-InScreen}
use bloreos.Terminal.Enter.{printable, string_at_lem}
use bloreos.Terminal.Print.{tprintf}
use bloreos.Kprintf.{port_com1, log_text, kprintf}

printable-fits :
    (s : List ℕ) → printable s ≡ true → (length s < 256) × (plain s ≡ true) × (no_zero s ≡ true)
printable-fits [] ok = (omega arith, refl, refl)
printable-fits (c ∷ s) ok = (ground (arith, ok), ground (arith, ok), ground (arith, ok))

printed_text :
    (stack : Ram) (s : List ℕ) (t : Terminal)
    → InScreen t
    → printable s ≡ true
    → (tprintf stack s [] t ≡ some (print_chars s (start_line t)))
      × InScreen (print_chars s (start_line t))
printed_text stack [] t v ok = absurd (ground (arith, ok))
printed_text stack (c ∷ s) t v ok = (
  tprintf_lem stack c s [] t v.ready (ground (arith, ok)) (ground (arith, ok)) (ground (arith, ok)),
  print_chars-InScreen (c ∷ s) (start_line t) (start_line-InScreen t v),
)

-- On a terminal whose next character fits on the screen and a line that is busy for any number of
-- readings before each character, kprintf of a text of 1 to 255 characters without conversions and
-- zeros returns: the line has got the text, each character once and in order, the terminal has it drawn
-- character by character, on a line that is blanked first if it is new, and the next character fits on the screen again.
pub kprintf-both :
    (stack below : Ram) (text waits later : List ℕ) (args : List Arg) (status : ℕ)
    (done : List Effect) (t : Terminal)
    → InScreen t
    → printable text ≡ true
    → bit_and status 0x20 ≢ 0
    → length waits ≡ length text
    → (kprintf stack below text args
          (record { answers = all_polls status waits later; effects = done })
          t
        ≡ some (
          record { answers = later; effects = sent port_com1 text done },
          print_chars text (start_line t),
        ))
      × InScreen (print_chars text (start_line t))
unfolding kprintf log_text
kprintf-both stack below text waits later args status done t v ok ready same =
    let (small, p, n) = printable-fits text ok in
    let (d, e, printed) = vsnprintf-Printed stack 0 256 text args (omega arith) (omega arith) p in
    let held = Holds-Printed stack text d small n printed in
    let (drawn, v') = printed_text below text t v ok in
    let line =
      write_serial_str-sent port_com1 status d.mem 0 text waits later done ready held (omega arith)
        same in
    (rw (e, line, string_at_lem 256 0 d.mem text held small, drawn) refl, v')
