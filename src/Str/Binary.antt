-- ===== src/Str/Binary.antt =====
-- sprint_binary8, 16, 32 and 64 of src/lib/str.c.
use bloreos.Base.{
  ℕ, zero, suc, ◌+◌, ◌-◌, ◌%◌, Bool, not, ◌&&◌, ◌==◌, if◌then◌else◌, Ram, update, bit_and, ◌<<<◌,
  u32, u64,
}

abbrev pub bit_char : Bool → ℕ
bit_char b = if b then b'1' else b'0'

-- for (i = 0; i < 8; i++) buff[7-i] = ...
unfoldable pub binary8_loop : ℕ → Ram → ℕ → ℕ → ℕ → Ram
binary8_loop zero m buff ch i = m
binary8_loop (suc left) m buff ch i =
    binary8_loop left (update m (buff + (7 - i)) (bit_char (not (bit_and ch (1 <<< i) == 0)))) buff
      ch (i + 1)

unfoldable pub sprint_binary8 : Ram → ℕ → ℕ → Ram
unfolding binary8_loop
sprint_binary8 m buff ch = update (binary8_loop 8 m buff ch 0) (buff + 8) 0

-- The loop of the three others: `top` says whether the highest bit of ch << bitIndex is set, and
-- `last` is the index of the last bit.
unfoldable pub spaced_loop : (ℕ → Bool) → ℕ → ℕ → Ram → ℕ → ℕ → ℕ → Ram
spaced_loop top last zero m buff bit_index char_index = m
spaced_loop top last (suc left) m buff bit_index char_index =
    let m' = update m (buff + char_index) (bit_char (top bit_index)) in
    let space = ((bit_index + 1) % 8 == 0) && not (bit_index == last) in
    spaced_loop top last left (if space then update m' (buff + (char_index + 1)) b' ' else m') buff
      (bit_index + 1) (if space then char_index + 2 else char_index + 1)

unfoldable pub sprint_binary16 : Ram → ℕ → ℕ → Ram
unfolding spaced_loop
sprint_binary16 m buff ch =
    spaced_loop (λ i. not (bit_and (u32 (ch <<< i)) 0x8000 == 0)) 15 16 (update m (buff + 17) 0)
      buff 0 0

unfoldable pub sprint_binary32 : Ram → ℕ → ℕ → Ram
unfolding spaced_loop
sprint_binary32 m buff ch =
    spaced_loop (λ i. not (bit_and (u32 (ch <<< i)) 0x8000_0000 == 0)) 31 32
      (update m (buff + 35) 0) buff 0 0

unfoldable pub sprint_binary64 : Ram → ℕ → ℕ → Ram
unfolding spaced_loop
sprint_binary64 m buff ch =
    spaced_loop (λ i. not (bit_and (u64 (ch <<< i)) 0x8000_0000_0000_0000 == 0)) 63 64
      (update m (buff + 71) 0) buff 0 0
