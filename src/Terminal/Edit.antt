-- ===== src/Terminal/Edit.antt =====
-- The input line of src/terminal.c as an editor of a list of characters.
use bloreos.Base.{
  ℕ, suc, ◌+◌, ◌-◌, ◌^◌, ◌<◌, ◌≡◌, ◌≢◌, refl, ap, subst, ◌∙◌, Bool, true, false, not, ltb, ◌==◌,
  ◌&&◌, List, [], ◌∷◌, ◌++◌, some, none, if◌then◌else◌, Ram, update, u32, u64, arith, Bool-cases,
  inl, inr, length,
}
use bloreos.Str.{strlen}
use bloreos.Str.Compare.{Holds, strlen_lem}
use bloreos.Ps2.Keys.{KeyEvent}
use bloreos.Terminal.{Terminal}
use bloreos.Terminal.Draw.{render_glyph, clear_cursor, render_cursor}
use bloreos.Terminal.Input.{
  backspace, type_char, term_keyevent, ps2_keydown, ps2_scancode_backspace, ps2_scancode_enter,
}
use bloreos.Terminal.Kept.{Kept-render_cursor, Kept-clear_cursor}

abbrev pub drop_last : List ℕ → List ℕ
drop_last [] = []
drop_last (c ∷ []) = []
drop_last (c ∷ d ∷ s) = c ∷ drop_last (d ∷ s)

Holds-append :
    (s : List ℕ) (m : Ram) (a ch : ℕ)
    → ch ≢ 0
    → Holds m a s
    → Holds (update (update m (a + length s) ch) (a + length s + 1) 0) a (s ++ (ch ∷ []))
Holds-append [] m a ch nonzero e = (ground arith, nonzero, ground arith)
Holds-append (c ∷ s) m a ch nonzero (e, first, rest) =
    let next : a + 1 + length s ≡ a + suc (length s) = omega arith in
    (
      ground (arith, e),
      first,
      subst (λ i. Holds (update (update m i ch) (i + 1) 0) (a + 1) (s ++ (ch ∷ []))) next
          (Holds-append s m (a + 1) ch nonzero rest),
    )

Holds-drop_last :
    (c : ℕ) (s : List ℕ) (m : Ram) (a : ℕ)
    → Holds m a (c ∷ s)
    → Holds (update m (a + length s) 0) a (drop_last (c ∷ s))
Holds-drop_last c [] m a h = ground arith
Holds-drop_last c (d ∷ s) m a (e, first, rest) =
    let next : a + 1 + length s ≡ a + suc (length s) = omega arith in
    (
      ground (arith, e),
      first,
      subst (λ i. Holds (update m i 0) (a + 1) (drop_last (d ∷ s))) next
          (Holds-drop_last d s m (a + 1) rest),
    )

-- The input after a character, where the array has room for it.
type_char_text :
    (ch len : ℕ) (t : Terminal)
    → strlen t.input_str 0 ≡ len
    → len < 255
    → (t' : Terminal) × (type_char ch t ≡ some t')
      × (t'.input_str ≡ update (update t.input_str len ch) (len + 1) 0)
unfolding type_char
type_char_text ch len t e small =
    let drawn = render_glyph ch t.input_render_x t.input_render_y t in
    let typed = record drawn {
      input_render_x = u32 (t.input_render_x + t.glyph_width);
      input_str =
          update (update t.input_str (strlen t.input_str 0) ch) (strlen t.input_str 0 + 1) 0;
    } in
    let room : ltb (strlen t.input_str 0 + 1) 256 ≡ true = ground (arith, e) in
    (
      render_cursor (clear_cursor typed),
      rw room refl,
      (Kept-render_cursor (clear_cursor typed)).7
          ∙ (Kept-clear_cursor typed).7
          ∙ ap (λ n. update (update t.input_str n ch) (n + 1) 0) e,
    )

backspace_text :
    (t : Terminal)
    → (backspace t).input_str ≡ update t.input_str (u64 (strlen t.input_str 0 + 2 ^ 64 - 1)) 0
unfolding backspace
backspace_text t =
    let shorter = record t {
      input_str = update t.input_str (u64 (strlen t.input_str 0 + 2 ^ 64 - 1)) 0;
    } in
    (Kept-render_cursor _).7 ∙ (Kept-clear_cursor shorter).7

abbrev pub nonempty : List ℕ → Bool
nonempty [] = false
nonempty (c ∷ s) = true

-- What a key that is not Enter makes of the input.
abbrev pub edited : KeyEvent → List ℕ → List ℕ
edited ke s =
    if ke.event_type == ps2_keydown && (ke.scan_code == ps2_scancode_backspace) && nonempty s
    then drop_last s
    else if ke.event_type == ps2_keydown && not (ke.ascii == 0)
    then s ++ (ke.ascii ∷ [])
    else s

pub nonempty_lem : (s : List ℕ) (m : Ram) → Holds m 0 s → not (m 0 == 0) ≡ nonempty s
nonempty_lem [] m h = ground (arith, h)
nonempty_lem (c ∷ s) m (e, nonzero, h) = ground arith

pub backspace-Holds :
    (s : List ℕ) (t : Terminal)
    → nonempty s ≡ true
    → length s < 256
    → Holds t.input_str 0 s
    → Holds (backspace t).input_str 0 (drop_last s)
backspace-Holds [] t nonempty_s small h = absurd (ground (arith, nonempty_s))
backspace-Holds (c ∷ s) t nonempty_s small h =
    let last : u64 (strlen t.input_str 0 + 2 ^ 64 - 1) ≡ 0 + length s =
      omega (arith, strlen_lem t.input_str 0 (c ∷ s) h (omega arith)) in
    rw (backspace_text t, last) (Holds-drop_last c s t.input_str 0 h)

pub type_char-Holds :
    (ch : ℕ) (s : List ℕ) (t : Terminal)
    → not (ch == 0) ≡ true
    → length s < 255
    → Holds t.input_str 0 s
    → (t' : Terminal) × (type_char ch t ≡ some t') × Holds t'.input_str 0 (s ++ (ch ∷ []))
type_char-Holds ch s t nonzero small h =
    let (t', done, text) =
      type_char_text ch (length s) t (strlen_lem t.input_str 0 s h (omega arith)) small in
    let zero_len : 0 + length s ≡ length s = omega arith in
    (
      t',
      done,
      rw text (
          subst (λ i. Holds (update (update t.input_str i ch) (i + 1) 0) 0 (s ++ (ch ∷ [])))
            zero_len (Holds-append s t.input_str 0 ch (ground (arith, nonzero)) h)),
    )

-- A key other than a pressed Enter edits the input of fewer than 255 characters as a list:
-- backspace drops the last character, a press of a key with a character appends it, anything else
-- changes nothing; and the handler returns.
pub term_keyevent-edits :
    (stacks : ℕ → Ram) (secs : ℕ) (ke : KeyEvent) (s : List ℕ) (t : Terminal)
    → (ke.event_type == ps2_keydown && (ke.scan_code == ps2_scancode_enter)) ≡ false
    → length s < 255
    → Holds t.input_str 0 s
    → (t' : Terminal) × (term_keyevent stacks secs ke t ≡ some t')
      × Holds t'.input_str 0 (edited ke s)
unfolding term_keyevent
term_keyevent-edits stacks secs ke s t other small h =
    elim (Bool-cases
      (ke.event_type == ps2_keydown && (ke.scan_code == ps2_scancode_backspace) && nonempty s)) [
        | inl back ↦ (
          backspace t,
          rw (other, nonempty_lem s t.input_str h, back) refl,
          rw back (backspace-Holds s t (ground (arith, back)) (omega (arith, small)) h),
        )
        | inr keep ↦ elim (Bool-cases (ke.event_type == ps2_keydown && not (ke.ascii == 0))) [
          | inl typed ↦
              let (t', done, text) = type_char-Holds ke.ascii s t (ground (arith, typed)) small h in
              (
                t',
                rw (other, nonempty_lem s t.input_str h, keep, typed) done,
                rw (keep, typed) text,
              )
          | inr idle ↦
              (t, rw (other, nonempty_lem s t.input_str h, keep, idle) refl, rw (keep, idle) h)
        ]
      ]

-- A press of a key with a character, other than Enter and backspace, when the input has 255 characters:
-- the character takes the last byte of the array, and the terminator is written past its end.
pub term_keyevent-full :
    (stacks : ℕ → Ram) (secs : ℕ) (ke : KeyEvent) (s : List ℕ) (t : Terminal)
    → ke.event_type ≡ ps2_keydown
    → ke.scan_code ≢ ps2_scancode_enter
    → ke.scan_code ≢ ps2_scancode_backspace
    → ke.ascii ≢ 0
    → length s ≡ 255
    → Holds t.input_str 0 s
    → term_keyevent stacks secs ke t ≡ none
unfolding term_keyevent type_char
term_keyevent-full stacks secs ke s t down enter back nonzero full h =
    ground (arith, strlen_lem t.input_str 0 s h (omega arith))
