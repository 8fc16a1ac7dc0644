-- ===== src/Terminal/Lines.antt =====
-- What tprintf of src/terminal.c does with a text, and where the next line is.
use bloreos.Base.{
  ℕ, zero, suc, ◌+◌, ◌-◌, ◌≤◌, ◌<◌, ◌≡◌, refl, ap, ◌∙◌, Bool, true, false, not, ◌&&◌, List, [], ◌∷◌,
  some, ltb, leb, ◌==◌, if◌then◌else◌, Ram, length, get_or, arith,
}
use bloreos.Str.Numbers.{Digits}
use bloreos.Str.Format.{Arg, vsnprintf}
use bloreos.Str.Format.Plain.{plain, Printed, vsnprintf-Printed}
use bloreos.Str.Compare.{Holds}
use bloreos.Terminal.{Terminal}
use bloreos.Terminal.Draw.{blank_line}
use bloreos.Terminal.Print.{print_char, print_loop, print_text, tprintf}

-- The characters of a text, one after the other.
abbrev pub print_chars : List ℕ → Terminal → Terminal
print_chars [] t = t
print_chars (c ∷ s) t = print_chars s (print_char c t)

-- The line is blanked before the first character of it.
abbrev pub start_line : Terminal → Terminal
start_line t = if t.render_x == 0 then blank_line t.render_y t else t

-- The first character is printed whatever it is; the others end at a zero.
pub print_loop_lem :
    (left i c : ℕ) (s : List ℕ) (buffer : Ram) (t : Terminal)
    → buffer i ≡ c
    → Holds buffer (i + 1) s
    → length s + 1 < left
    → print_loop left buffer i t ≡ some (print_chars (c ∷ s) t)
unfolding print_loop
print_loop_lem zero i c s buffer t e h small = absurd (omega arith)
print_loop_lem (suc left) i c [] buffer t e h small =
    let more : (left == 0) ≡ false = ground arith in
    let end : (buffer (i + 1) == 0) ≡ true = ground (arith, h) in rw (more, end, e) refl
print_loop_lem (suc left) i c (d ∷ s) buffer t e (first, nonzero, h) small =
    let more : (left == 0) ≡ false = ground arith in
    let on : (buffer (i + 1) == 0) ≡ false = ground (arith, first, nonzero) in
    rw (more, on, e) (print_loop_lem left (i + 1) d s buffer (print_char c t) first h (omega arith))

-- No character of the text is zero.
abbrev pub no_zero : List ℕ → Bool
no_zero [] = true
no_zero (c ∷ s) = not (c == 0) && no_zero s

pointwise_string :
    (s : List ℕ) (m : Ram) (a : ℕ)
    → no_zero s ≡ true
    → ((j : ℕ) → j < length s → m (a + j) ≡ get_or s j 0)
    → m (a + length s) ≡ 0
    → Holds m a s
pointwise_string [] m a n each end = let here : a ≡ a + 0 = omega arith in ap m here ∙ end
pointwise_string (c ∷ s) m a n each end =
    let here : a ≡ a + 0 = omega arith in
    let last : a + 1 + length s ≡ a + suc (length s) = omega arith in
    (
      ap m here ∙ each 0 (omega arith),
      ground (arith, n),
      pointwise_string s m (a + 1) (ground (arith, n))
          (λ j h.
            let next : a + 1 + j ≡ a + suc j = omega arith in
            ap m next ∙ each (suc j) (omega arith))
          (ap m last ∙ end),
    )

same_string :
    (s : List ℕ) (m m' : Ram) (a : ℕ) → ((x : ℕ) → a ≤ x → m' x ≡ m x) → Holds m a s → Holds m' a s
same_string [] m m' a e h = e a (omega arith) ∙ h
same_string (c ∷ s) m m' a e (first, nonzero, h) =
    (e a (omega arith) ∙ first, nonzero, same_string s m m' (a + 1) (λ x b. e x (omega arith)) h)

-- The formatted text of a plain format stands at the start of the buffer.
pub Holds-Printed :
    (stack : Ram) (s : List ℕ) (d : Digits)
    → length s < 256
    → no_zero s ≡ true
    → Printed stack 0 256 s d
    → Holds d.mem 0 s
Holds-Printed stack s d small n p =
    let count : d.count ≡ length s = omega (arith, p.count) in
    pointwise_string s d.mem 0 n (λ j h. p.bytes (0 + j) ∙ in_text j (omega (arith, count, h)))
      (p.bytes (0 + length s) ∙ at_end (omega arith))
  where
    in_text :
        (j : ℕ)
        → j < d.count
        → (if leb 0 (0 + j) && ltb (0 + j) (0 + d.count)
            then get_or s (0 + j - 0) 0
            else if 0 + j == 0 + d.count
            then 0
            else stack (0 + j))
          ≡ get_or s j 0
    in_text j h = let e : 0 + j - 0 ≡ j = omega arith in ground (arith, e)

    at_end :
        d.count ≡ length s
        → (if leb 0 (0 + length s) && ltb (0 + length s) (0 + d.count)
            then get_or s (0 + length s - 0) 0
            else if 0 + length s == 0 + d.count
            then 0
            else stack (0 + length s))
          ≡ 0
    at_end e = ground arith

-- A terminal that is ready prints what vsnprintf leaves in the buffer.
pub tprintf_open :
    (stack : Ram) (format : List ℕ) (args : List Arg) (t : Terminal) (d : Digits)
    → t.is_ready ≡ true
    → vsnprintf stack 0 256 format args ≡ some d
    → tprintf stack format args t ≡ print_loop 256 d.mem 0 (start_line t)
unfolding tprintf print_text
tprintf_open stack format args t d ready e = rw (ready, e) refl

-- A terminal that is ready prints a format without conversions and zeros, of 1 to 255 characters,
-- to its end: each character once, in order, on a line that was blanked if it was new.
pub tprintf_lem :
    (stack : Ram) (c : ℕ) (s : List ℕ) (args : List Arg) (t : Terminal)
    → t.is_ready ≡ true
    → length s < 255
    → plain (c ∷ s) ≡ true
    → no_zero (c ∷ s) ≡ true
    → tprintf stack (c ∷ s) args t ≡ some (print_chars (c ∷ s) (start_line t))
tprintf_lem stack c s args t ready small p n =
    let (d, e, printed) =
      vsnprintf-Printed stack 0 256 (c ∷ s) args (omega arith) (omega arith) p in
    let (first, nonzero, rest) = Holds-Printed stack (c ∷ s) d (omega arith) n printed in
    tprintf_open stack (c ∷ s) args t d ready e
    ∙ print_loop_lem 256 0 c s d.mem (start_line t) first rest (omega arith)

-- With an empty format the terminator itself is printed, and after it whatever string the stack
-- holds behind the first byte of the buffer.
pub tprintf-empty :
    (stack : Ram) (s : List ℕ) (args : List Arg) (t : Terminal)
    → t.is_ready ≡ true
    → length s < 255
    → Holds stack 1 s
    → tprintf stack [] args t ≡ some (print_chars (0 ∷ s) (start_line t))
tprintf-empty stack s args t ready small h =
    let (d, e, printed) = vsnprintf-Printed stack 0 256 [] args (omega arith) (omega arith) refl in
    tprintf_open stack [] args t d ready e
    ∙ print_loop_lem 256 0 0 s d.mem (start_line t)
        (printed.bytes 0 ∙ ground (arith, printed.count))
        (same_string s stack d.mem 1 (λ x far. printed.bytes x ∙ ground (arith, printed.count)) h)
        (omega arith)
