-- ===== src/Terminal/Room.antt =====
-- The input of src/terminal.c never outgrows its array: what a key event that returns makes of an
-- input of up to 255 characters.
use bloreos.Base.{
  ℕ, ◌+◌, ◌≤◌, ◌<◌, ◌≡◌, subst, true, false, not, ltb, ◌==◌, ◌&&◌, List, [], ◌∷◌, ◌++◌, some, none,
  Ram, length, length-append, Bool-cases, inl, inr, arith,
}
use bloreos.Str.{strlen}
use bloreos.Str.Compare.{Holds, strlen_lem}
use bloreos.Ps2.Keys.{KeyEvent}
use bloreos.Terminal.{Terminal}
use bloreos.Terminal.Input.{
  backspace, type_char, term_keyevent, ps2_keydown, ps2_scancode_backspace,
}
use bloreos.Terminal.Edit.{
  drop_last, edited, nonempty, nonempty_lem, backspace-Holds, type_char-Holds,
}
use bloreos.Terminal.InScreen.{InScreen}
use bloreos.Terminal.Typed.{is_enter, next_input}
use bloreos.Terminal.StaysIn.{term_keyevent-StaysIn}

length-drop_last : (s : List ℕ) → length (drop_last s) ≤ length s
length-drop_last [] = omega arith
length-drop_last (c ∷ []) = omega arith
length-drop_last (c ∷ d ∷ s) = omega (arith, length-drop_last (d ∷ s))

-- A character was typed only where there was room.
type_char_room :
    (ch : ℕ) (s : List ℕ) (t t' : Terminal)
    → Holds t.input_str 0 s
    → length s < 256
    → type_char ch t ≡ some t'
    → length s < 255
unfolding type_char
type_char_room ch s t t' h fits e = elim (Bool-cases (ltb (strlen t.input_str 0 + 1) 256)) [
  | inl room ↦ ground (arith, room, strlen_lem t.input_str 0 s h (omega arith))
  | inr full ↦ let over : none ≡ some t' = rw full at e in absurd cc
]

type_char-fits :
    (ch : ℕ) (s : List ℕ) (t t' : Terminal)
    → not (ch == 0) ≡ true
    → Holds t.input_str 0 s
    → length s < 256
    → type_char ch t ≡ some t'
    → Holds t'.input_str 0 (s ++ (ch ∷ [])) × (length (s ++ (ch ∷ [])) < 256)
type_char-fits ch s t t' nonzero h fits e =
    let room = type_char_room ch s t t' h fits e in
    let (t'', done, text) = type_char-Holds ch s t nonzero room h in
    let same : t'' ≡ t' = cc in
    (
      subst (λ t. Holds t.input_str 0 (s ++ (ch ∷ []))) same text,
      omega (arith, length-append s (ch ∷ []), room),
    )

edited-fits :
    (stacks : ℕ → Ram) (secs : ℕ) (ke : KeyEvent) (s : List ℕ) (t t' : Terminal)
    → is_enter ke ≡ false
    → Holds t.input_str 0 s
    → length s < 256
    → term_keyevent stacks secs ke t ≡ some t'
    → Holds t'.input_str 0 (edited ke s) × (length (edited ke s) < 256)
unfolding term_keyevent
edited-fits stacks secs ke s t t' other h fits e =
    let here = nonempty_lem s t.input_str h in
    elim (Bool-cases
      (ke.event_type == ps2_keydown && (ke.scan_code == ps2_scancode_backspace) && nonempty s)) [
        | inl back ↦
            let same : some (backspace t) ≡ some t' = rw (other, here, back) at e in
            let same' : backspace t ≡ t' = cc in
            rw back (
              subst (λ t. Holds t.input_str 0 (drop_last s)) same'
                  (backspace-Holds s t (ground (arith, back)) fits h),
              omega (arith, length-drop_last s, fits),
            )
        | inr keep ↦ elim (Bool-cases (ke.event_type == ps2_keydown && not (ke.ascii == 0))) [
          | inl typed ↦
              rw (keep, typed)
                (type_char-fits ke.ascii s t t' (ground (arith, typed)) h fits
                  (rw (other, here, keep, typed) at e))
          | inr idle ↦
              let same : some t ≡ some t' = rw (other, here, keep, idle) at e in
              let same' : t ≡ t' = cc in
              rw (keep, idle) (subst (λ t. Holds t.input_str 0 s) same' h, fits)
        ]
      ]

-- A key event that returns, on an input of up to 255 characters and a screen whose next character
-- fits, leaves such an input and such a screen: the event edits the input as a list, and Enter empties
-- it.
pub term_keyevent-fits :
    (stacks : ℕ → Ram) (secs : ℕ) (ke : KeyEvent) (s : List ℕ) (t t' : Terminal)
    → InScreen t
    → Holds t.input_str 0 s
    → length s < 256
    → term_keyevent stacks secs ke t ≡ some t'
    → InScreen t' × Holds t'.input_str 0 (next_input ke s) × (length (next_input ke s) < 256)
term_keyevent-fits stacks secs ke s t t' v h fits e =
    let (v', emptied) = term_keyevent-StaysIn stacks secs ke t t' v e in
    elim (Bool-cases (is_enter ke)) [
      | inl pressed ↦ (v', rw pressed (emptied pressed), rw pressed (omega arith))
      | inr other ↦
          let (text, small) = edited-fits stacks secs ke s t t' other h fits e in
          (v', rw other text, rw other small)
    ]
