-- ===== src/Kprintf/Lines.antt =====
-- Several calls of kprintf, one after the other. Call n finds `stacks n` in its own buffer and `below n`
-- in that of tprintf.
use bloreos.Base.{
  ℕ, suc, ◌-◌, ◌≢◌, ◌^◌, ◌≡◌, refl, Bool, true, false, ltb, ◌&&◌, if◌then◌else◌, List, [], ◌∷◌,
  Option, some, Ram, u32, ◌>>=◌, bit_and, length, ◌==◌, arith,
}
use bloreos.Str.Numbers.{ℤ, pos, negsuc}
use bloreos.Str.Format.{Arg}
use bloreos.Ps2.{Io, Effect}
use bloreos.Serial.Sent.{all_polls, sent}
use bloreos.Terminal.{Terminal}
use bloreos.Terminal.InScreen.{InScreen}
use bloreos.Terminal.Lines.{print_chars, start_line}
use bloreos.Terminal.Enter.{printable}
use bloreos.Kprintf.{port_com1, kprintf}
use bloreos.Kprintf.Both.{kprintf-both}

-- A uint32_t, or the lower half of a uint64_t, that va_arg reads as an int.
unfoldable pub as_int : ℕ → ℤ
as_int n = if ltb (u32 n) (2 ^ 31) then pos (u32 n) else negsuc (2 ^ 32 - 1 - u32 n)

-- A call of kprintf: its format and its arguments.
abbrev pub Line : Type 0
Line = List ℕ × List Arg

unfoldable pub print_lines :
    (ℕ → Ram) → (ℕ → Ram) → ℕ → List Line → Io → Terminal → Option (Io × Terminal)
print_lines stacks below n [] s t = some (s, t)
print_lines stacks below n ((format, args) ∷ lines) s t =
    kprintf (stacks n) (below n) format args s t >>= λ both.
    print_lines stacks below (suc n) lines both.0 both.1

-- The answers of a line that is busy for some readings before each character, a list per text.
abbrev pub line_polls : ℕ → List (List ℕ) → List ℕ → List ℕ
line_polls status [] later = later
line_polls status (w ∷ ws) later = all_polls status w (line_polls status ws later)

abbrev pub all_sent : List (List ℕ) → List Effect → List Effect
all_sent [] done = done
all_sent (text ∷ texts) done = all_sent texts (sent port_com1 text done)

-- Texts without arguments that kprintf prints to their end, with as many numbers of readings as there
-- are characters.
abbrev pub all_printable : List (List ℕ) → List (List ℕ) → Bool
all_printable [] [] = true
all_printable [] (w ∷ ws) = false
all_printable (text ∷ texts) [] = false
all_printable (text ∷ texts) (w ∷ ws) =
    printable text && (length w == length text) && all_printable texts ws

abbrev pub plain_lines : List (List ℕ) → List Line
plain_lines [] = []
plain_lines (text ∷ texts) = (text, []) ∷ plain_lines texts

-- The terminal with the texts drawn on it character by character, each after blanking its line if it
-- begins one.
abbrev pub shown : List (List ℕ) → Terminal → Terminal
shown [] t = t
shown (text ∷ texts) t = shown texts (print_chars text (start_line t))

-- On a terminal whose next character fits on the screen, and a line that is busy for any number of
-- readings before each character, a sequence of calls of kprintf on texts of 1 to 255 characters
-- without conversions and zeros returns: the line has got all the texts, in their order, the terminal has
-- each of them drawn character by character, one after the other, and the next character fits on the
-- screen again.
pub print_lines-sent :
    (texts waits : List (List ℕ)) (stacks below : ℕ → Ram) (n status : ℕ) (later : List ℕ)
    (done : List Effect) (t : Terminal)
    → InScreen t
    → all_printable texts waits ≡ true
    → bit_and status 0x20 ≢ 0
    → (print_lines stacks below n
          (plain_lines texts)
          (record { answers = line_polls status waits later; effects = done })
          t
        ≡ some (record { answers = later; effects = all_sent texts done }, shown texts t))
      × InScreen (shown texts t)
unfolding print_lines
print_lines-sent [] [] stacks below n status later done t v ok ready = (refl, v)
print_lines-sent [] (w ∷ ws) stacks below n status later done t v ok ready = absurd cc
print_lines-sent (text ∷ texts) [] stacks below n status later done t v ok ready = absurd cc
print_lines-sent (text ∷ texts) (w ∷ ws) stacks below n status later done t v ok ready =
    let (first, v1) =
      kprintf-both (stacks n) (below n) text w (line_polls status ws later) [] status done t v
        (ground (arith, ok)) ready (ground (arith, ok)) in
    let (rest, v') =
      print_lines-sent texts ws stacks below (suc n) status later (sent port_com1 text done)
        (print_chars text (start_line t)) v1 (ground (arith, ok)) ready in
    (rw first rest, v')
