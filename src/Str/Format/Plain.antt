-- ===== src/Str/Format/Plain.antt =====
-- vsnprintf of src/lib/str.c on a format without conversions.
use bloreos.Base.{
  ℕ, zero, suc, ◌+◌, ◌-◌, ◌^◌, ◌≤◌, ◌<◌, min, ◌≡◌, refl, ap, ◌∙◌, Bool, true, false, List, [], ◌∷◌,
  length, some, ltb, leb, ◌==◌, ◌&&◌, not, if◌then◌else◌, Ram, update, arith, get_or, u64,
  Bool-cases, inl, inr,
}
use bloreos.Str.Numbers.{Digits}
use bloreos.Str.Format.{
  Arg, Printing, goes_on, stops, format_char, format_loop, format_round, terminate, vsnprintf,
}

abbrev pub plain : List ℕ → Bool
plain [] = true
plain (c ∷ s) = not (c == b'%') && plain s

-- The loop puts the characters of the format one after the other, as far as the buffer goes.
pub record Placed (m : Ram) (buffer size i : ℕ) (format : List ℕ) (q : Printing) : Type 0 where
  pub index : q.index ≡ min (i + length format) (size - 1)
  pub bytes :
      (x : ℕ)
      → q.mem x ≡ (
          if leb (buffer + i) x && ltb x (buffer + q.index)
          then get_or format (x - (buffer + i)) 0
          else m x)

get_or-suc : (c : ℕ) (s : List ℕ) (k : ℕ) → 0 < k → get_or (c ∷ s) k 0 ≡ get_or s (k - 1) 0
get_or-suc c s zero h = absurd (omega arith)
get_or-suc c s (suc k) h = let e : suc k - 1 ≡ k = omega arith in rw e refl

one_character_more :
    (m : Ram) (buffer size i c : ℕ) (rest : List ℕ) (q : Printing)
    → i < size - 1
    → Placed (update m (buffer + i) c) buffer size (i + 1) rest q
    → Placed m buffer size i (c ∷ rest) q
one_character_more m buffer size i c rest q room t = record {
  index = omega (arith, t.index);
  bytes = λ x. elim (Bool-cases (x == buffer + i)) [
    | inl here ↦
        let at : x - (buffer + i) ≡ 0 = ground arith in rw at (t.bytes x ∙ ground (arith, t.index))
    | inr other ↦
        let k : x - (buffer + i) - 1 ≡ x - (buffer + (i + 1)) = omega arith in
        t.bytes x ∙ ground (arith, t.index, get_or-suc c rest (x - (buffer + i)), k)
  ];
}

nothing_between : (m : Ram) (a x v : ℕ) → m x ≡ (if leb a x && ltb x a then v else m x)
nothing_between m a x v = ground arith

more_index : (i size : ℕ) → ltb i (size - 1) ≡ true → i < size - 1
more_index i size more = ground arith

full_index : (i size : ℕ) → ltb i (size - 1) ≡ false → size - 1 ≤ i
full_index i size full = ground arith

module _ (m : Ram) (buffer size i c : ℕ) (rest : List ℕ) (args : List Arg) (room : i < size)
    (small : size < 2 ^ 64) (ordinary : (c == b'%') ≡ false) where
  format_char_stores :
      ltb i (size - 1) ≡ true
      → format_char buffer size
          (record { mem = m; index = i; args = args; format = c ∷ rest })
          c
          rest
        ≡ goes_on
            (record { mem = update m (buffer + i) c; index = i + 1; args = args; format = rest })
  unfolding format_char
  format_char_stores more =
      let last : ltb i (u64 (size + 2 ^ 64 - 1)) ≡ true = ground arith in rw (ordinary, last) refl

  format_char_full :
      ltb i (size - 1) ≡ false
      → format_char buffer size
          (record { mem = m; index = i; args = args; format = c ∷ rest })
          c
          rest
        ≡ stops (record { mem = m; index = i; args = args; format = c ∷ rest })
  unfolding format_char
  format_char_full full =
      let last : ltb i (u64 (size + 2 ^ 64 - 1)) ≡ false = ground arith in rw (ordinary, last) refl

pub format_loop-Placed :
    (m : Ram) (buffer size i : ℕ) (format : List ℕ) (args : List Arg)
    → i < size
    → size < 2 ^ 64
    → plain format ≡ true
    → (q : Printing) × (format_loop
          (suc (length format))
          buffer
          size
          (goes_on (record { mem = m; index = i; args = args; format = format }))
        ≡ some q)
      × Placed m buffer size i format q
unfolding format_loop format_round format_char
format_loop-Placed m buffer size i [] args room small p =
    (_, refl, record { index = omega arith; bytes = λ x. ground arith })
format_loop-Placed m buffer size i (c ∷ rest) args room small p =
    let ordinary : (c == b'%') ≡ false = ground (arith, p) in
    let after : plain rest ≡ true = ground (arith, p) in
    elim (Bool-cases (ltb i (size - 1))) [
      | inl more ↦
          let room_left : i < size - 1 = more_index i size more in
          let (q, e, t) =
            format_loop-Placed (update m (buffer + i) c) buffer size (i + 1) rest args
              (omega (arith, room_left)) small after in
          (
            q,
            ap (format_loop (suc (length rest)) buffer size)
                  (format_char_stores m buffer size i c rest args room small ordinary more)
                ∙ e,
            one_character_more m buffer size i c rest q room_left t,
          )
      | inr full ↦ (
        record { mem = m; index = i; args = args; format = c ∷ rest },
        ap (format_loop (suc (length rest)) buffer size)
            (format_char_full m buffer size i c rest args room small ordinary full),
        record {
          index = omega (arith, full_index i size full);
          bytes = λ x. nothing_between m (buffer + i) x (get_or (c ∷ rest) (x - (buffer + i)) 0);
        },
      )
    ]

update_bytes :
    (m' m : Ram) (buffer n x : ℕ) (format : List ℕ)
    → m' x ≡ (if leb buffer x && ltb x (buffer + n) then get_or format (x - buffer) 0 else m x)
    → update m' (buffer + n) 0 x ≡ (
        if leb buffer x && ltb x (buffer + n)
        then get_or format (x - buffer) 0
        else if x == buffer + n
        then 0
        else m x)
update_bytes m' m buffer n x format e = ground arith

-- What vsnprintf leaves of a format without conversions.
pub record Printed (m : Ram) (buffer size : ℕ) (format : List ℕ) (d : Digits) : Type 0 where
  pub count : d.count ≡ min (length format) (size - 1)
  pub bytes :
      (x : ℕ)
      → d.mem x ≡ (
          if leb buffer x && ltb x (buffer + d.count)
          then get_or format (x - buffer) 0
          else if x == buffer + d.count
          then 0
          else m x)

end : ℕ → ℕ → Printing → Digits
end buffer size p = record {
  mem =
      update p.mem (if ltb p.index size then buffer + p.index else buffer + u64 (size + 2 ^ 64 - 1))
        0;
  count = p.index;
}

Placed-Printed :
    (m : Ram) (buffer size : ℕ) (format : List ℕ) (q : Printing)
    → 0 < size
    → size < 2 ^ 64
    → Placed m buffer size 0 format q
    → Printed m buffer size format (end buffer size q)
unfolding end
Placed-Printed m buffer size format q room small t =
    let here : buffer + 0 ≡ buffer = omega arith in
    let inside : ltb q.index size ≡ true = ground (arith, t.index) in
    rw inside (record {
      count = omega (arith, t.index);
      bytes = λ x. update_bytes q.mem m buffer q.index x format (t.bytes x ∙ rw here refl);
    })

-- On a format without `%` and a buffer that is not empty, vsnprintf ends, returns the number of
-- characters that fit before the terminator, and leaves them and the terminator in the buffer; no
-- other byte changes.
pub vsnprintf-Printed :
    (m : Ram) (buffer size : ℕ) (format : List ℕ) (args : List Arg)
    → 0 < size
    → size < 2 ^ 64
    → plain format ≡ true
    → (d : Digits) × (vsnprintf m buffer size format args ≡ some d) × Printed m buffer size format d
unfolding vsnprintf terminate end
vsnprintf-Printed m buffer size format args room small p =
    let (q, e, t) = format_loop-Placed m buffer size 0 format args room small p in
    (_, ap (terminate buffer size) e, Placed-Printed m buffer size format q room small t)
