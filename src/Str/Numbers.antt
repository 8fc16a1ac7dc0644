-- ===== src/Str/Numbers.antt =====
-- reverse, itoa, __ultoa, __ultoua and ltoa of src/lib/str.c. Each takes the memory and hands it
-- back with the length that it returns.
use bloreos.Base.{
  ℕ, zero, suc, ◌+◌, ◌-◌, ◌/◌, ◌%◌, ◌^◌, ltb, ◌==◌, if◌then◌else◌, Ram, update, u8, u64,
}

-- The numbers of type int and int64_t; `negsuc n` is -(n + 1).
pub data ℤ : Type 0 where
  pos : ℕ → ℤ
  negsuc : ℕ → ℤ

-- `while (start < end)`; each round brings the two one step nearer.
unfoldable pub reverse_loop : ℕ → Ram → ℕ → ℕ → ℕ → Ram
reverse_loop zero m str start end = m
reverse_loop (suc fuel) m str start end =
    let temp = m (str + start) in
    let swapped = update (update m (str + start) (m (str + end))) (str + end) temp in
    let rest = reverse_loop fuel swapped str (start + 1) (end - 1) in
    if ltb start end then rest else m

-- `end` starts at length - 1 in size_t.
unfoldable pub reverse : Ram → ℕ → ℕ → Ram
unfolding reverse_loop
reverse m str length = reverse_loop length m str 0 (u64 (length + 2 ^ 64 - 1))

-- The character of a digit; `letter` is 'a' or 'A'.
unfoldable pub digit_char : ℕ → ℕ → ℕ
digit_char letter rem = u8 (if ltb 9 rem then rem - 10 + letter else rem + b'0')

pub record Digits : Type 0 where
  pub mem : Ram
  pub count : ℕ

-- `do { ... } while (num != 0)` of __ultoa and __ultoua.
unfoldable pub digits_do : ℕ → ℕ → ℕ → Ram → ℕ → ℕ → ℕ → Digits
unfolding digit_char
digits_do letter base zero m str num i = record { mem = m; count = i }
digits_do letter base (suc fuel) m str num i =
    let m' = update m (str + i) (digit_char letter (num % base)) in
    let rest = digits_do letter base fuel m' str (num / base) (i + 1) in
    if num / base == 0 then record { mem = m'; count = i + 1 } else rest

-- `while (i < 16) str[i++] = '0'`
unfoldable pub pad : ℕ → Ram → ℕ → ℕ → Digits
pad zero m str i = record { mem = m; count = i }
pad (suc fuel) m str i =
    let rest = pad fuel (update m (str + i) b'0') str (i + 1) in
    if ltb i 16 then rest else record { mem = m; count = i }

-- The end of each conversion: the terminator, then the digits in the right order.
unfoldable pub finish : ℕ → Digits → Digits
unfolding reverse
finish str d = record {
  mem = reverse (update d.mem (str + d.count) 0) str d.count;
  count = d.count;
}

unfoldable pub unsigned_to_text : ℕ → Ram → ℕ → ℕ → ℕ → Digits
unfolding digits_do pad finish
unsigned_to_text letter m num str base =
    let d = digits_do letter base 64 m str num 0 in
    finish str (if base == 16 then pad 16 d.mem str d.count else d)

unfoldable pub ultoa : Ram → ℕ → ℕ → ℕ → Digits
unfolding unsigned_to_text
ultoa m num str base = unsigned_to_text b'a' m num str base

unfoldable pub ultoua : Ram → ℕ → ℕ → ℕ → Digits
unfolding unsigned_to_text
ultoua m num str base = unsigned_to_text b'A' m num str base

-- `while (num != 0)` of itoa and ltoa.
unfoldable pub digits_while : ℕ → ℕ → Ram → ℕ → ℕ → ℕ → Digits
unfolding digit_char
digits_while base zero m str num i = record { mem = m; count = i }
digits_while base (suc fuel) m str num i =
    let rest =
      digits_while base fuel (update m (str + i) (digit_char b'a' (num % base))) str (num / base)
        (i + 1) in
    if num == 0 then record { mem = m; count = i } else rest

-- `if (num == 0) str[i++] = '0';` and then the loop.
unfoldable pub magnitude : Ram → ℕ → ℕ → ℕ → Digits
unfolding digits_while
magnitude m num str base =
    if num == 0
    then record { mem = update m str b'0'; count = 1 }
    else digits_while base 64 m str num 0

-- itoa and ltoa, which differ in the width of the number only. The least number of the width, whose
-- negation C leaves undefined, is not an argument.
unfoldable pub signed_to_text : Ram → ℤ → ℕ → ℕ → Digits
unfolding magnitude finish
signed_to_text m (pos n) str base = finish str (magnitude m n str base)
signed_to_text m (negsuc n) str base =
    let d = magnitude m (n + 1) str base in
    finish str (record { mem = update d.mem (str + d.count) b'-'; count = d.count + 1 })

unfoldable pub itoa : Ram → ℤ → ℕ → ℕ → Digits
unfolding signed_to_text
itoa m num str base = signed_to_text m num str base

unfoldable pub ltoa : Ram → ℤ → ℕ → ℕ → Digits
unfolding signed_to_text
ltoa m num str base = signed_to_text m num str base
