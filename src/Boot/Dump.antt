-- ===== src/Boot/Dump.antt =====
-- The printing of memory in src/mem.c, which nothing calls: _print_bitmap and the dumps. Call n of
-- kprintf finds `stacks n` in its own buffer and `below n` in that of tprintf.
use bloreos.Base.{
  ℕ, zero, suc, ◌+◌, ◌/◌, ◌≡◌, ◌≢◌, refl, Bool, true, false, List, [], ◌∷◌, ◌++◌, Option, some, Ram,
  get_bytes, codes, u64, ltb, ◌-◌, length, if◌then◌else◌, bit_and, Bool-cases, inl, inr,
}
use bloreos.Str.Numbers.{ℤ, pos, negsuc}
use bloreos.Str.Format.{int_arg, word_arg}
use bloreos.Ps2.{Io, Effect}
use bloreos.Terminal.{Terminal}
use bloreos.Terminal.InScreen.{InScreen}
use bloreos.Terminal.Lines.{print_chars, start_line}
use bloreos.Bitmap.{bitmap_test}
use bloreos.Serial.Sent.{all_polls, sent}
use bloreos.Kprintf.{port_com1}
use bloreos.Kprintf.Both.{kprintf-both}
use bloreos.Kprintf.Lines.{as_int, Line, print_lines, plain_lines}

-- The text of a flag, and of those from page i on.
abbrev pub flag_text : Bool → List ℕ
flag_text true = codes "1"
flag_text false = codes "0"

abbrev pub flag_texts : ℕ → Ram → ℕ → List (List ℕ)
flag_texts zero bitmap i = []
flag_texts (suc left) bitmap i = flag_text (bitmap_test bitmap i) ∷ flag_texts left bitmap (i + 1)

unfoldable pub print_bitmap :
    (ℕ → Ram) → (ℕ → Ram) → Ram → ℕ → ℕ → Io → Terminal → Option (Io × Terminal)
unfolding as_int print_lines
print_bitmap stacks below bitmap start len s t =
    print_lines stacks below 0
      ((codes "Bitmap (%d-%d): ", int_arg (as_int start) ∷ int_arg (as_int (start + len)) ∷ [])
        ∷ plain_lines (flag_texts (u64 (start + len) - start) bitmap start ++ (codes "\n" ∷ [])))
      s t

-- The characters from `location` on, each as a `char`, which is signed.
abbrev char_int : ℕ → ℤ
char_int c = if ltb c 128 then pos c else negsuc (255 - c)

abbrev pub char_lines : ℕ → Ram → ℕ → List Line
char_lines zero m location = []
char_lines (suc left) m location =
    (codes "%c", int_arg (char_int (m location)) ∷ []) ∷ char_lines left m (location + 1)

unfoldable pub memdumps :
    (ℕ → Ram) → (ℕ → Ram) → Ram → ℕ → ℕ → Io → Terminal → Option (Io × Terminal)
unfolding print_lines
memdumps stacks below m location len_bytes s t =
    print_lines stacks below 0 (char_lines len_bytes m location ++ plain_lines (codes "\n" ∷ [])) s
      t

-- The words of `size` bytes from `location` on.
abbrev pub word_lines : ℕ → ℕ → Ram → ℕ → List Line
word_lines size zero m location = []
word_lines size (suc left) m location =
    (codes "0x%X ", word_arg (get_bytes size m location) ∷ [])
    ∷ word_lines size left m (location + size)

unfoldable pub memdumpx32 :
    (ℕ → Ram) → (ℕ → Ram) → Ram → ℕ → ℕ → Io → Terminal → Option (Io × Terminal)
unfolding print_lines
memdumpx32 stacks below m location len_bytes s t =
    print_lines stacks below 0
      (word_lines 4 (len_bytes / 4) m location ++ plain_lines (codes "\n" ∷ [])) s t

unfoldable pub memdumpx64 :
    (ℕ → Ram) → (ℕ → Ram) → Ram → ℕ → ℕ → Io → Terminal → Option (Io × Terminal)
unfolding print_lines
memdumpx64 stacks below m location len_bytes s t =
    print_lines stacks below 0
      (word_lines 8 (len_bytes / 8) m location ++ plain_lines (codes "\n" ∷ [])) s t

-- The flags from page i on, as one text.
abbrev pub flags_text : ℕ → Ram → ℕ → List ℕ
flags_text zero bitmap i = []
flags_text (suc left) bitmap i =
    (if bitmap_test bitmap i then b'1' else b'0') ∷ flags_text left bitmap (i + 1)

-- The loop of _print_bitmap, on a terminal whose next character fits on the screen and a line that is
-- busy for any number of readings before each character: it returns, the line has got a 1 for each page
-- that is taken and a 0 for each that is free, in their order, and the next character fits on the
-- screen again.
pub print_bitmap-sent :
    (busy : List ℕ) (stacks below : ℕ → Ram) (n status : ℕ) (bitmap : Ram) (i : ℕ) (later : List ℕ)
    (done : List Effect) (t : Terminal)
    → InScreen t
    → bit_and status 0x20 ≢ 0
    → (t' : Terminal) × (print_lines stacks below n
          (plain_lines (flag_texts (length busy) bitmap i))
          (record { answers = all_polls status busy later; effects = done })
          t
        ≡ some (
          record {
            answers = later;
            effects = sent port_com1 (flags_text (length busy) bitmap i) done;
          },
          t',
        ))
      × InScreen t'
unfolding print_lines
print_bitmap-sent [] stacks below n status bitmap i later done t v ready = (t, refl, v)
print_bitmap-sent (w ∷ ws) stacks below n status bitmap i later done t v ready =
    elim (Bool-cases (bitmap_test bitmap i)) [
      | inl taken ↦
          let (first, v1) =
            kprintf-both (stacks n) (below n) (codes "1") (w ∷ []) (all_polls status ws later) []
              status done t v refl ready refl in
          let (t', rest, v') =
            print_bitmap-sent ws stacks below (suc n) status bitmap (i + 1) later
              (sent port_com1 (codes "1") done) (print_chars (codes "1") (start_line t)) v1 ready in
          (t', rw (taken, first) rest, v')
      | inr free ↦
          let (first, v1) =
            kprintf-both (stacks n) (below n) (codes "0") (w ∷ []) (all_polls status ws later) []
              status done t v refl ready refl in
          let (t', rest, v') =
            print_bitmap-sent ws stacks below (suc n) status bitmap (i + 1) later
              (sent port_com1 (codes "0") done) (print_chars (codes "0") (start_line t)) v1 ready in
          (t', rw (free, first) rest, v')
    ]
