-- ===== src/Terminal/Timed.antt =====
-- The answers of src/terminal.c that show the time: the text that vsnprintf makes of a number between
-- two plain parts.
use bloreos.Base.{
  Bool-cases, inl, inr, ℕ, zero, suc, ◌+◌, ◌-◌, ◌^◌, ◌≤◌, ◌<◌, ◌≡◌, ◌≢◌, refl, ap, ◌∙◌, true, List,
  [], ◌∷◌, some, Ram, update, update_self, update_ne, ltb, length, get_or, arith,
}
use bloreos.Str.Numbers.{Digits, ultoa}
use bloreos.Str.Nonzero.{IsDecimal, ultoa-IsDecimal}
use bloreos.Str.Compare.{Holds}
use bloreos.Str.Format.{
  word_arg, Printing, Step, goes_on, stops, undefined, put_text, number_written, put_word,
  next_word, convert_long, convert, format_char, format_round, format_loop, terminate, vsnprintf,
}
use bloreos.Str.Format.Plain.{plain, Placed, format_loop-Placed}
use bloreos.Terminal.{Terminal}
use bloreos.Terminal.Print.{tprintf}
use bloreos.Terminal.Input.{time_text}
use bloreos.Terminal.Lines.{print_chars, start_line, no_zero, tprintf_open, print_loop_lem}

-- One round more changes nothing once the loop has ended.
format_loop_more :
    (fuel buffer size : ℕ) (s : Step) (q : Printing)
    → format_loop fuel buffer size s ≡ some q
    → format_loop (suc fuel) buffer size s ≡ some q
unfolding format_loop
format_loop_more fuel buffer size undefined q e = e
format_loop_more fuel buffer size (stops p) q e = e
format_loop_more zero buffer size (goes_on p) q e = absurd cc
format_loop_more (suc fuel) buffer size (goes_on p) q e =
    format_loop_more fuel buffer size (format_round buffer size p p.format) q e

abbrev time_prefix : List ℕ
time_prefix =
    b'K' ∷ b'e' ∷ b'r' ∷ b'n' ∷ b'e' ∷ b'r' ∷ b' ' ∷ b'T' ∷ b'i' ∷ b'm' ∷ b'e' ∷ b':' ∷ b' ' ∷ []

abbrev prefixed : Ram → Ram
prefixed stack = put_text stack 0 0 time_prefix

prefix_nonzero : (stack : Ram) (x : ℕ) → x < 13 → prefixed stack x ≢ 0
unfolding put_text
prefix_nonzero stack x h = ground arith

-- The loop at the end of `%lu`.
after_number :
    (stack : Ram) (n : ℕ) (unit : List ℕ)
    → format_loop (suc (length (time_text unit))) 0 256 (
        goes_on
          (record { mem = stack; index = 0; args = word_arg n ∷ []; format = time_text unit }))
      ≡ format_loop (suc (suc (suc (length unit)))) 0 256 (
          goes_on (record {
            mem = (ultoa (prefixed stack) n 13 10).mem;
            index = 13 + (ultoa (prefixed stack) n 13 10).count;
            args = [];
            format = unit;
          }))
unfolding format_loop format_round format_char convert convert_long put_word number_written
    next_word put_text
after_number stack n unit = refl

get_or_nonzero : (s : List ℕ) (i : ℕ) → no_zero s ≡ true → i < length s → get_or s i 0 ≢ 0
get_or_nonzero [] i n h = absurd (omega arith)
get_or_nonzero (c ∷ s) zero n h = ground (arith, n)
get_or_nonzero (c ∷ s) (suc i) n h = get_or_nonzero s i (ground (arith, n)) (omega arith)

-- The n bytes from an address.
abbrev text_at : Ram → ℕ → ℕ → List ℕ
text_at m a zero = []
text_at m a (suc n) = m a ∷ text_at m (a + 1) n

length-text_at : (m : Ram) (a n : ℕ) → length (text_at m a n) ≡ n
length-text_at m a zero = refl
length-text_at m a (suc n) = omega (arith, length-text_at m (a + 1) n)

Holds-text_at :
    (m : Ram) (a n : ℕ)
    → ((x : ℕ) → a ≤ x → x < a + n → m x ≢ 0)
    → m (a + n) ≡ 0
    → Holds m a (text_at m a n)
Holds-text_at m a zero h end = let e : a ≡ a + 0 = omega arith in ap m e ∙ end
Holds-text_at m a (suc n) h end =
    let e : a + 1 + n ≡ a + suc n = omega arith in
    (
      refl,
      h a (omega arith) (omega arith),
      Holds-text_at m (a + 1) n (λ x low high. h x (omega arith) (omega arith)) (ap m e ∙ end),
    )

-- The finished text: the prefix, the digits and the unit, none of them zero, and the terminator.
record Finished (d : Digits) : Type 0 where
  some_text : 0 < d.count
  short : d.count < 256
  nonzero : (x : ℕ) → x < d.count → d.mem x ≢ 0
  terminated : d.mem d.count ≡ 0

module _ (stack : Ram) (unit : List ℕ) (d : Digits) (q : Printing) (n : no_zero unit ≡ true)
    (dec : IsDecimal (prefixed stack) 13 d) (placed : Placed d.mem 0 256 (13 + d.count) unit q)
    (index : q.index ≡ 13 + d.count + length unit) where
  before_unit : (x : ℕ) → x < 13 + d.count → q.mem x ≡ d.mem x
  before_unit x h = placed.bytes x ∙ ground arith

  in_unit : (x : ℕ) → 13 + d.count ≤ x → x < q.index → q.mem x ≡ get_or unit (x - (13 + d.count)) 0
  in_unit x low high =
      let e : x - (0 + (13 + d.count)) ≡ x - (13 + d.count) = omega arith in
      placed.bytes x ∙ ground (arith, e)

  text_nonzero : (x : ℕ) → x < q.index → q.mem x ≢ 0
  text_nonzero x h = elim (Bool-cases (ltb x 13)) [
    | inl first ↦
        let at : x < 13 = ground (arith, first) in
        omega (arith, before_unit x (omega (arith, at)), dec.below x at, prefix_nonzero stack x at)
    | inr later ↦ elim (Bool-cases (ltb x (13 + d.count))) [
      | inl digit ↦
          let high : x < 13 + d.count = ground (arith, digit) in
          omega (arith, before_unit x high, dec.nonzero x (ground (arith, later)) high)
      | inr unit_at ↦
          let low : 13 + d.count ≤ x = ground (arith, unit_at) in
          omega (
            arith,
            in_unit x low h,
            get_or_nonzero unit (x - (13 + d.count)) n (omega (arith, low, h, index)),
          )
    ]
  ]

  -- What vsnprintf leaves in the buffer.
  ended : Ram
  ended = update q.mem q.index 0

  ended-Holds : Holds ended (0 + 1) (text_at ended (0 + 1) (q.index - 1))
  unfolding ended
  ended-Holds =
      let last : 0 + 1 + (q.index - 1) ≡ q.index = omega (arith, index) in
      Holds-text_at ended (0 + 1) (q.index - 1)
        (λ x low high. omega (
          arith,
          text_nonzero x (omega (arith, high, index)),
          update_ne q.mem q.index x 0 (omega (arith, high, index)),
        ))
        (ap ended last ∙ update_self q.mem q.index 0)

  terminate_lem :
      q.index < 256 → terminate 0 256 (some q) ≡ some (record { mem = ended; count = q.index })
  unfolding terminate ended
  terminate_lem room =
      let inside : ltb q.index 256 ≡ true = ground (arith, room) in
      let here : 0 + q.index ≡ q.index = omega arith in rw (inside, here) refl

-- A terminal that is ready gets through the answer with the time, for every number of 64 bits and a
-- unit of fewer than 100 characters without conversions and zeros: it prints the characters of some
-- text that is not empty.
pub tprintf_time :
    (stack : Ram) (secs : ℕ) (unit : List ℕ) (t : Terminal)
    → t.is_ready ≡ true
    → secs < 2 ^ 64
    → plain unit ≡ true
    → no_zero unit ≡ true
    → length unit < 100
    → (s : List ℕ) × (tprintf stack (time_text unit) (word_arg secs ∷ []) t
        ≡ some (print_chars s (start_line t)))
unfolding vsnprintf
tprintf_time stack secs unit t ready word p n small =
    let d = ultoa (prefixed stack) secs 13 10 in
    let dec = ultoa-IsDecimal (prefixed stack) secs 13 word in
    let (q, e, placed) =
      format_loop-Placed d.mem 0 256 (13 + d.count) unit [] (omega (arith, dec.room)) (omega arith)
        p in
    let index : q.index ≡ 13 + d.count + length unit =
      omega (arith, placed.index, dec.room, small) in
    let room : q.index < 256 = omega (arith, index, dec.room, small) in
    let st = goes_on (record { mem = d.mem; index = 13 + d.count; args = []; format = unit }) in
    let looped =
      after_number stack secs unit
      ∙ format_loop_more (suc (suc (length unit))) 0 256 st q
          (format_loop_more (suc (length unit)) 0 256 st q e) in
    let m = ended stack unit d q n dec placed index in
    (
      m 0 ∷ text_at m (0 + 1) (q.index - 1),
      tprintf_open stack (time_text unit) (word_arg secs ∷ []) t
            (record { mem = m; count = q.index }) ready
            (ap (terminate 0 256) looped ∙ terminate_lem stack unit d q n dec placed index room)
          ∙ print_loop_lem 256 0 (m 0) (text_at m (0 + 1) (q.index - 1)) m (start_line t) refl
              (ended-Holds stack unit d q n dec placed index)
              (omega (arith, length-text_at m (0 + 1) (q.index - 1), room, index)),
    )
