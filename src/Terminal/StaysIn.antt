-- ===== src/Terminal/StaysIn.antt =====
-- Whatever src/terminal.c prints, and whatever key it handles: where it returns at all, the next
-- character fits on the screen.
use bloreos.Base.{
  ℕ, zero, suc, ◌+◌, ◌≡◌, ap, sym, subst, ◌∙◌, true, false, not, ◌==◌, List, [], some, none, Ram,
  update, update_self, Bool-cases, inl, inr, bind_some,
}
use bloreos.Str.Compare.{Holds}
use bloreos.Str.Format.{Arg, vsnprintf}
use bloreos.Ps2.Keys.{KeyEvent}
use bloreos.Terminal.{Terminal}
use bloreos.Terminal.Print.{print_char, print_loop, print_text, tprintf}
use bloreos.Terminal.Input.{
  Command, hello, cls, time, stime, unknown, term_clear, command, run_command, handle_cmd, enter,
  term_keyevent,
}
use bloreos.Terminal.Lines.{start_line}
use bloreos.Terminal.InScreen.{InScreen, print_char-InScreen, start_line-InScreen}
use bloreos.Terminal.Enter.{print_char_text, start_line_text, term_clear-InScreen}
use bloreos.Terminal.Typed.{is_enter, term_keyevent-InScreen, entered}

-- The next character of t' fits, and the input is that of t.
pub record StaysIn (t t' : Terminal) : Type 0 where
  pub screen : InScreen t'
  pub input : t'.input_str ≡ t.input_str

pub stays_through : (t t' t'' : Terminal) → StaysIn t t' → StaysIn t' t'' → StaysIn t t''
stays_through t t' t'' v w = record { screen = w.screen; input = w.input ∙ v.input }

print_loop-StaysIn :
    (left i : ℕ) (buffer : Ram) (t t' : Terminal)
    → InScreen t
    → print_loop left buffer i t ≡ some t'
    → StaysIn t t'
unfolding print_loop
print_loop-StaysIn zero i buffer t t' v e = absurd cc
print_loop-StaysIn (suc left) i buffer t t' v e =
    let once = print_char (buffer i) t in
    let once-StaysIn : StaysIn t once = record {
      screen = print_char-InScreen (buffer i) t v;
      input = print_char_text (buffer i) t;
    } in
    elim (Bool-cases (left == 0)) [
      | inl last ↦ let over : none ≡ some t' = rw last at e in absurd cc
      | inr more ↦ elim (Bool-cases (buffer (i + 1) == 0)) [
        | inl end ↦
            let same : some once ≡ some t' = rw (more, end) at e in
            let same' : once ≡ t' = cc in subst (λ t'. StaysIn t t') same' once-StaysIn
        | inr on ↦ stays_through t once t' once-StaysIn (
            print_loop-StaysIn left (i + 1) buffer once t' once-StaysIn.screen (rw (more, on) at e))
      ]
    ]

-- Where tprintf returns, whatever its format, its arguments and the bytes that its buffer held before,
-- the next character fits on the screen again, and the input is as before.
pub tprintf-StaysIn :
    (stack : Ram) (format : List ℕ) (args : List Arg) (t t' : Terminal)
    → InScreen t
    → tprintf stack format args t ≡ some t'
    → StaysIn t t'
unfolding tprintf print_text
tprintf-StaysIn stack format args t t' v e =
    let ready : not t.is_ready ≡ false = ap not v.ready in
    let (text, made, shown) =
      bind_some (vsnprintf stack 0 256 format args) (λ d. print_text d.mem t) t' (rw ready at e) in
    let started : StaysIn t (start_line t) = record {
      screen = start_line-InScreen t v;
      input = start_line_text t;
    } in
    stays_through t (start_line t) t' started
      (print_loop-StaysIn 256 0 text.mem (start_line t) t' started.screen shown)

run_command-StaysIn :
    (c : Command) (stack : Ram) (secs : ℕ) (t t' : Terminal)
    → InScreen t
    → run_command c stack secs t ≡ some t'
    → InScreen t'
unfolding run_command
run_command-StaysIn hello stack secs t t' v e = (tprintf-StaysIn stack _ _ t t' v e).screen
run_command-StaysIn cls stack secs t t' v e =
    let same : term_clear t ≡ t' = cc in subst InScreen same (term_clear-InScreen t v)
run_command-StaysIn time stack secs t t' v e = (tprintf-StaysIn stack _ _ t t' v e).screen
run_command-StaysIn stime stack secs t t' v e = (tprintf-StaysIn stack _ _ t t' v e).screen
run_command-StaysIn unknown stack secs t t' v e = (tprintf-StaysIn stack _ _ t t' v e).screen

emptied-InScreen :
    (t : Terminal) (input : Ram) → InScreen t → InScreen (record t { input_str = input })
emptied-InScreen t input v = record {
  ready = v.ready;
  cell = v.cell;
  narrow = v.narrow;
  low = v.low;
  x_in = v.x_in;
  y_in = v.y_in;
}

enter-StaysIn :
    (stacks : ℕ → Ram) (secs : ℕ) (t t' : Terminal)
    → InScreen t
    → enter stacks secs t ≡ some t'
    → InScreen t' × Holds t'.input_str 0 []
unfolding enter handle_cmd
enter-StaysIn stacks secs t t' v e =
    let (marked, mark, e1) = bind_some _ _ t' e in
    let (echoed, echo, e2) = bind_some _ _ t' e1 in
    let (ended, end, e3) = bind_some _ _ t' e2 in
    let (done, run, e4) = bind_some _ _ t' e3 in
    let v1 = (tprintf-StaysIn (stacks 0) _ _ t marked v mark).screen in
    let v2 = (tprintf-StaysIn (stacks 1) _ _ marked echoed v1 echo).screen in
    let v3 = (tprintf-StaysIn (stacks 2) _ _ echoed ended v2 end).screen in
    let v4 = run_command-StaysIn (command ended.input_str) (stacks 3) secs ended done v3 run in
    let cleared = record done { input_str = update done.input_str 0 0 } in
    let same : cleared ≡ t' = cc in
    subst (λ t. InScreen t × Holds t.input_str 0 []) same
      (emptied-InScreen done cleared.input_str v4, update_self done.input_str 0 0)

-- The same of a key event: afterwards the next character fits again, and Enter has emptied the input.
pub term_keyevent-StaysIn :
    (stacks : ℕ → Ram) (secs : ℕ) (ke : KeyEvent) (t t' : Terminal)
    → InScreen t
    → term_keyevent stacks secs ke t ≡ some t'
    → InScreen t' × (is_enter ke ≡ true → Holds t'.input_str 0 [])
term_keyevent-StaysIn stacks secs ke t t' v e = elim (Bool-cases (is_enter ke)) [
  | inl pressed ↦
      let (v', empty) =
        enter-StaysIn stacks secs t t' v (sym (entered stacks secs ke t pressed) ∙ e) in
      (v', λ on. empty)
  | inr other ↦ (term_keyevent-InScreen stacks secs ke t t' other v e, λ on. absurd cc)
]
