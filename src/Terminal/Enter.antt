-- ===== src/Terminal/Enter.antt =====
-- The Enter key of src/terminal.c: echo, command and a new input.
use bloreos.Base.{
  ◌/◌, ◌^◌, ℕ, zero, suc, ◌+◌, ◌<◌, ◌≡◌, refl, ap, sym, subst, ◌∙◌, Bool, true, false, ltb, ◌==◌,
  ◌&&◌, List, [], ◌∷◌, some, Ram, update, update_self, u32, arith, Bool-cases, inl, inr, length,
}
use bloreos.Str.Compare.{Holds}
use bloreos.Str.Format.{Arg, word_arg}
use bloreos.Str.Format.Plain.{plain}
use bloreos.Terminal.{Terminal, clear_screen}
use bloreos.Terminal.Draw.{scroll, move_to_next_line, below_screen}
use bloreos.Terminal.Print.{past_edge, print_char, tprintf}
use bloreos.Terminal.Input.{
  Command, hello, cls, time, stime, unknown, at_origin, term_clear, world_text, time_text,
  unknown_text, command, run_command, handle_cmd, string_at, enter,
}
use bloreos.Terminal.Kept.{
  Kept-shift_screen_up, Kept-render_glyph, Kept-render_input_line, Kept-blank_line,
}
use bloreos.Terminal.Lines.{print_chars, start_line, no_zero, tprintf_lem}
use bloreos.Terminal.Timed.{tprintf_time}
use bloreos.Terminal.InScreen.{InScreen, InScreen-Kept, print_chars-InScreen, start_line-InScreen}

scroll_text : (t : Terminal) → (scroll t).input_str ≡ t.input_str
unfolding scroll
scroll_text t = elim (Bool-cases (below_screen t t.render_y)) [
  | inl below ↦ rw below (Kept-shift_screen_up t).7
  | inr fits ↦ rw fits refl
]

move_text : (t : Terminal) → (move_to_next_line t).input_str ≡ t.input_str
unfolding move_to_next_line
move_text t = elim (Bool-cases (t.render_x == 0)) [
  | inl start ↦ rw start (
      (Kept-render_input_line _).7
      ∙ (Kept-blank_line _ _).7
      ∙ scroll_text _
      ∙ (Kept-blank_line _ _).7)
  | inr on ↦ rw on ((Kept-render_input_line _).7 ∙ (Kept-blank_line _ _).7 ∙ scroll_text _)
]

pub print_char_text : (c : ℕ) (t : Terminal) → (print_char c t).input_str ≡ t.input_str
unfolding print_char
print_char_text c t = elim (Bool-cases (c == b'\n')) [
  | inl newline ↦ rw newline (move_text t)
  | inr text ↦ elim (Bool-cases (past_edge t (u32 (t.render_x + 8 + 1)))) [
    | inl past ↦ rw (text, past) (move_text _ ∙ (Kept-render_glyph c _ _ t).7)
    | inr inside ↦ rw (text, inside) (Kept-render_glyph c _ _ t).7
  ]
]

print_chars_text : (s : List ℕ) (t : Terminal) → (print_chars s t).input_str ≡ t.input_str
print_chars_text [] t = refl
print_chars_text (c ∷ s) t = print_chars_text s (print_char c t) ∙ print_char_text c t

pub start_line_text : (t : Terminal) → (start_line t).input_str ≡ t.input_str
start_line_text t = elim (Bool-cases (t.render_x == 0)) [
  | inl start ↦ rw start (Kept-blank_line t.render_y t).7
  | inr on ↦ rw on refl
]

-- A text that tprintf prints to its end.
abbrev pub printable : List ℕ → Bool
printable [] = false
printable (c ∷ s) = ltb (length s) 255 && plain (c ∷ s) && no_zero (c ∷ s)

pub print_step :
    (stack : Ram) (s : List ℕ) (args : List Arg) (t : Terminal)
    → InScreen t
    → printable s ≡ true
    → (t' : Terminal) × (tprintf stack s args t ≡ some t')
      × InScreen t'
      × (t'.input_str ≡ t.input_str)
print_step stack [] args t v ok = absurd (ground (arith, ok))
print_step stack (c ∷ s) args t v ok = (
  print_chars (c ∷ s) (start_line t),
  tprintf_lem stack c s args t v.ready (ground (arith, ok)) (ground (arith, ok))
      (ground (arith, ok)),
  print_chars-InScreen (c ∷ s) (start_line t) (start_line-InScreen t v),
  print_chars_text (c ∷ s) (start_line t) ∙ start_line_text t,
)

pub string_at_lem :
    (left i : ℕ) (m : Ram) (s : List ℕ) → Holds m i s → length s < left → string_at left m i ≡ s
unfolding string_at
string_at_lem zero i m s h small = absurd (omega arith)
string_at_lem (suc left) i m [] h small = rw h refl
string_at_lem (suc left) i m (c ∷ s) (e, nonzero, h) small =
    let on : (c == 0) ≡ false = ground (arith, nonzero) in
    rw (e, on) (ap (λ r. c ∷ r) (string_at_lem left (i + 1) m s h (omega arith)))

pub term_clear-InScreen : (t : Terminal) → InScreen t → InScreen (term_clear t)
unfolding term_clear clear_screen
term_clear-InScreen t v =
    InScreen-Kept (at_origin (clear_screen t)) (term_clear t)
      (Kept-render_input_line (at_origin (clear_screen t)))
      (record {
        ready = v.ready;
        cell = v.cell;
        narrow = v.narrow;
        low = v.low;
        x_in = omega (arith, v.x_in);
        y_in = omega (arith, v.y_in);
      })

timed-InScreen :
    (stack : Ram) (secs : ℕ) (unit : List ℕ) (t : Terminal)
    → InScreen t
    → secs < 2 ^ 64
    → plain unit ≡ true
    → no_zero unit ≡ true
    → length unit < 100
    → (t' : Terminal) × (tprintf stack (time_text unit) (word_arg secs ∷ []) t ≡ some t')
      × InScreen t'
timed-InScreen stack secs unit t v word p n small =
    let (s, e) = tprintf_time stack secs unit t v.ready word p n small in
    (
      print_chars s (start_line t),
      e,
      print_chars-InScreen s (start_line t) (start_line-InScreen t v),
    )

run_command-InScreen :
    (c : Command) (stack : Ram) (secs : ℕ) (t : Terminal)
    → secs < 2 ^ 64
    → InScreen t
    → (t' : Terminal) × (run_command c stack secs t ≡ some t') × InScreen t'
unfolding run_command
run_command-InScreen hello stack secs t ok v =
    let (t', done, v', text) = print_step stack world_text [] t v refl in (t', done, v')
run_command-InScreen cls stack secs t ok v = (term_clear t, refl, term_clear-InScreen t v)
run_command-InScreen time stack secs t word v =
    timed-InScreen stack secs (b'm' ∷ b's' ∷ 10 ∷ []) t v word refl refl (omega arith)
run_command-InScreen stime stack secs t word v =
    timed-InScreen stack (secs / 1000) (b's' ∷ 10 ∷ []) t v (omega (arith, word)) refl refl
      (omega arith)
run_command-InScreen unknown stack secs t ok v =
    let (t', done, v', text) = print_step stack unknown_text [] t v refl in (t', done, v')

-- On a screen whose next character fits, Enter returns for every input of 1 to 255 characters without
-- conversions, whatever its command: the next character fits again, and the input is empty.
pub enter-InScreen :
    (stacks : ℕ → Ram) (secs : ℕ) (s : List ℕ) (t : Terminal)
    → InScreen t
    → Holds t.input_str 0 s
    → printable s ≡ true
    → secs < 2 ^ 64
    → (t' : Terminal) × (enter stacks secs t ≡ some t') × InScreen t' × Holds t'.input_str 0 []
unfolding enter handle_cmd
enter-InScreen stacks secs s t v h ok word =
    let (marked, mark, v1, text1) = print_step (stacks 0) (b'#' ∷ b' ' ∷ []) [] t v refl in
    let input : string_at 256 marked.input_str 0 ≡ s =
      string_at_lem 256 0 marked.input_str s (subst (λ m. Holds m 0 s) (sym text1) h) (fits s ok) in
    let (echoed, echo, v2, text2) = print_step (stacks 1) s [] marked v1 ok in
    let (ended, end, v3, text3) = print_step (stacks 2) (10 ∷ []) [] echoed v2 refl in
    let (done, run, v4) =
      run_command-InScreen (command ended.input_str) (stacks 3) secs ended word v3 in
    (
      record done { input_str = update done.input_str 0 0 },
      rw (mark, input, echo, end, run) refl,
      record {
        ready = v4.ready;
        cell = v4.cell;
        narrow = v4.narrow;
        low = v4.low;
        x_in = v4.x_in;
        y_in = v4.y_in;
      },
      update_self done.input_str 0 0,
    )
  where
    fits : (s : List ℕ) → printable s ≡ true → length s < 256
    fits [] ok = omega arith
    fits (c ∷ s) ok = ground (arith, ok)
