-- ===== src/Str/Format.antt =====
-- vsnprintf of src/lib/str.c. A format is the list of the bytes before its terminator, and the
-- arguments are a list. What C leaves undefined is `undefined`: an argument that is missing or of
-- another type, and the byte after the terminator, which a `%` at the end of the format reads.
pub mod Plain
use bloreos.Base.{
  ℕ, zero, suc, ◌+◌, ◌-◌, ◌^◌, ◌%◌, Bool, true, false, List, [], ◌∷◌, length, Option, some, none,
  ltb, ◌==◌, ◌&&◌, if◌then◌else◌, Ram, update, u8, u64,
}
use bloreos.Str.Numbers.{ℤ, pos, negsuc, Digits, itoa, ltoa, ultoa, ultoua}

pub data Arg : Type 0 where
  int_arg : ℤ → Arg
  long_arg : ℤ → Arg
  word_arg : ℕ → Arg
  text_arg : List ℕ → Arg

-- va_arg at each type, with the arguments that are left.
unfoldable pub next_int : List Arg → Option (ℤ × List Arg)
next_int [] = none
next_int (int_arg v ∷ args) = some (v, args)
next_int (long_arg v ∷ args) = none
next_int (word_arg v ∷ args) = none
next_int (text_arg s ∷ args) = none

unfoldable pub next_long : List Arg → Option (ℤ × List Arg)
next_long [] = none
next_long (int_arg v ∷ args) = none
next_long (long_arg v ∷ args) = some (v, args)
next_long (word_arg v ∷ args) = none
next_long (text_arg s ∷ args) = none

unfoldable pub next_word : List Arg → Option (ℕ × List Arg)
next_word [] = none
next_word (int_arg v ∷ args) = none
next_word (long_arg v ∷ args) = none
next_word (word_arg v ∷ args) = some (v, args)
next_word (text_arg s ∷ args) = none

unfoldable pub next_text : List Arg → Option (List ℕ × List Arg)
next_text [] = none
next_text (int_arg v ∷ args) = none
next_text (long_arg v ∷ args) = none
next_text (word_arg v ∷ args) = none
next_text (text_arg s ∷ args) = some (s, args)

-- (char)ch
unfoldable pub to_char : ℤ → ℕ
to_char (pos n) = u8 n
to_char (negsuc n) = 255 - n % 256

-- The state of the loop: the memory, bufferIndex, the arguments and the format that are left.
pub record Printing : Type 0 where
  pub mem : Ram
  pub index : ℕ
  pub args : List Arg
  pub format : List ℕ

pub data Step : Type 0 where
  goes_on : Printing → Step
  stops : Printing → Step
  undefined : Step

-- while (*str != '\0') buffer[bufferIndex++] = *str++;
unfoldable pub put_text : Ram → ℕ → ℕ → List ℕ → Ram
put_text m buffer i [] = m
put_text m buffer i (c ∷ s) = put_text (update m (buffer + i) c) buffer (i + 1) s

unfoldable pub number_written : ℕ → Digits → List Arg → List ℕ → Step
number_written i d args rest =
    goes_on (record { mem = d.mem; index = i + d.count; args = args; format = rest })

unfoldable pub put_int : Ram → ℕ → ℕ → Option (ℤ × List Arg) → List ℕ → Step
unfolding number_written itoa
put_int m buffer i none rest = undefined
put_int m buffer i (some (v, args)) rest = number_written i (itoa m v (buffer + i) 10) args rest

unfoldable pub put_long : Ram → ℕ → ℕ → Option (ℤ × List Arg) → List ℕ → Step
unfolding number_written ltoa
put_long m buffer i none rest = undefined
put_long m buffer i (some (v, args)) rest = number_written i (ltoa m v (buffer + i) 10) args rest

-- __ultoua for %X, __ultoa for the others
unfoldable pub put_word : Bool → ℕ → Ram → ℕ → ℕ → Option (ℕ × List Arg) → List ℕ → Step
unfolding number_written ultoa ultoua
put_word upper base m buffer i none rest = undefined
put_word upper base m buffer i (some (v, args)) rest =
    number_written i (if upper then ultoua m v (buffer + i) base else ultoa m v (buffer + i) base)
      args rest

unfoldable pub put_string : Ram → ℕ → ℕ → Option (List ℕ × List Arg) → List ℕ → Step
unfolding put_text
put_string m buffer i none rest = undefined
put_string m buffer i (some (s, args)) rest =
    goes_on
      (record { mem = put_text m buffer i s; index = i + length s; args = args; format = rest })

unfoldable pub put_char : Ram → ℕ → ℕ → Option (ℤ × List Arg) → List ℕ → Step
unfolding to_char
put_char m buffer i none rest = undefined
put_char m buffer i (some (v, args)) rest =
    goes_on (record {
      mem = update m (buffer + i) (to_char v);
      index = i + 1;
      args = args;
      format = rest;
    })

-- After `%l`: u and d are conversions; anything else is left for the loop.
unfoldable pub convert_long : Ram → ℕ → ℕ → List Arg → List ℕ → Step
unfolding put_word put_long next_word next_long
convert_long m buffer i args [] = goes_on (record { mem = m; index = i; args = args; format = [] })
convert_long m buffer i args (c ∷ rest) =
    if c == b'u'
    then put_word false 10 m buffer i (next_word args) rest
    else if c == b'd'
    then put_long m buffer i (next_long args) rest
    else goes_on (record { mem = m; index = i; args = args; format = c ∷ rest })

-- The character after `%`
unfoldable pub convert : Ram → ℕ → ℕ → List Arg → List ℕ → Step
unfolding put_int put_word put_string put_char convert_long next_int next_word next_text
convert m buffer i args [] = undefined
convert m buffer i args (c ∷ rest) =
    if c == b'd'
    then put_int m buffer i (next_int args) rest
    else if c == b'x'
    then put_word false 16 m buffer i (next_word args) rest
    else if c == b'X'
    then put_word true 16 m buffer i (next_word args) rest
    else if c == b's'
    then put_string m buffer i (next_text args) rest
    else if c == b'c'
    then put_char m buffer i (next_int args) rest
    else if c == b'l'
    then convert_long m buffer i args rest
    else goes_on (record { mem = m; index = i; args = args; format = rest })

-- One round of the loop, at the character c of the format.
unfoldable pub format_char : ℕ → ℕ → Printing → ℕ → List ℕ → Step
unfolding convert
format_char buffer size p c rest =
    if c == b'%'
    then convert p.mem buffer p.index p.args rest
    else if ltb p.index (u64 (size + 2 ^ 64 - 1))
    then goes_on (record {
      mem = update p.mem (buffer + p.index) c;
      index = p.index + 1;
      args = p.args;
      format = rest;
    })
    else stops p

unfoldable pub format_round : ℕ → ℕ → Printing → List ℕ → Step
unfolding format_char
format_round buffer size p [] = stops p
format_round buffer size p (c ∷ rest) = format_char buffer size p c rest

-- Every round takes a character of the format at least.
unfoldable pub format_loop : ℕ → ℕ → ℕ → Step → Option Printing
unfolding format_round
format_loop fuel buffer size undefined = none
format_loop fuel buffer size (stops p) = some p
format_loop zero buffer size (goes_on p) = none
format_loop (suc fuel) buffer size (goes_on p) =
    format_loop fuel buffer size (format_round buffer size p p.format)

-- The terminator goes after the text, or into the last byte of a full buffer.
unfoldable pub terminate : ℕ → ℕ → Option Printing → Option Digits
terminate buffer size none = none
terminate buffer size (some p) = some (record {
  mem =
      update p.mem (if ltb p.index size then buffer + p.index else buffer + u64 (size + 2 ^ 64 - 1))
        0;
  count = p.index;
})

unfoldable pub vsnprintf : Ram → ℕ → ℕ → List ℕ → List Arg → Option Digits
unfolding format_loop terminate
vsnprintf m buffer size format args = terminate buffer size (
    format_loop (suc (length format)) buffer size
      (goes_on (record { mem = m; index = 0; args = args; format = format })))

unfoldable pub snprintf : Ram → ℕ → ℕ → List ℕ → List Arg → Option Digits
unfolding vsnprintf
snprintf m buffer size format args = vsnprintf m buffer size format args
