-- ===== src/Serial/Sent.antt =====
-- What src/serial.c sends over the line.
use bloreos.Base.{
  ℕ, zero, suc, ◌+◌, ◌≤◌, ◌≡◌, ◌≢◌, refl, false, List, [], ◌∷◌, some, ◌==◌, Ram, u8, u16, arith,
  bit_and, length,
}
use bloreos.Ps2.{Effect, out_byte, wait_set}
use bloreos.Str.Compare.{Holds}
use bloreos.Serial.{write_serial, write_loop, write_serial_str, out_port}

-- The answers of a line that is busy for some readings, then ready with the value `status`.
abbrev pub polls : ℕ → ℕ → List ℕ → List ℕ
polls status zero later = status ∷ later
polls status (suc busy) later = 0 ∷ polls status busy later

-- One such wait for each number of the list.
abbrev pub all_polls : ℕ → List ℕ → List ℕ → List ℕ
all_polls status [] later = later
all_polls status (busy ∷ waits) later = polls status busy (all_polls status waits later)

-- The effects of sending a text, the last first.
abbrev pub sent : ℕ → List ℕ → List Effect → List Effect
sent port [] done = done
sent port (c ∷ s) done = sent port s (out_byte (u16 port) (u8 c) ∷ done)

wait_lem :
    (busy status : ℕ) (later : List ℕ)
    → bit_and status 0x20 ≢ 0
    → wait_set 0x20 (polls status busy later) ≡ some later
unfolding wait_set
wait_lem zero status later ready = ground (arith, ready)
wait_lem (suc busy) status later ready = wait_lem busy status later ready

write_serial_lem :
    (port status busy c : ℕ) (later : List ℕ) (done : List Effect)
    → bit_and status 0x20 ≢ 0
    → write_serial port c (record { answers = polls status busy later; effects = done })
      ≡ some (record { answers = later; effects = out_byte (u16 port) (u8 c) ∷ done })
unfolding write_serial out_port
write_serial_lem port status busy c later done ready = rw (wait_lem busy status later ready) refl

write_loop_lem :
    (port status : ℕ) (m : Ram) (left i : ℕ) (text waits later : List ℕ) (done : List Effect)
    → bit_and status 0x20 ≢ 0
    → Holds m i text
    → length text ≤ left
    → length waits ≡ length text
    → write_loop left port m i (record { answers = all_polls status waits later; effects = done })
      ≡ some (record { answers = later; effects = sent port text done })
unfolding write_loop
write_loop_lem port status m zero i [] [] later done ready h small same = refl
write_loop_lem port status m (suc left) i [] [] later done ready h small same = rw h refl
write_loop_lem port status m left i [] (busy ∷ waits) later done ready h small same =
    absurd (omega arith)
write_loop_lem port status m left i (c ∷ text) [] later done ready h small same =
    absurd (omega arith)
write_loop_lem port status m zero i (c ∷ text) (busy ∷ waits) later done ready h small same =
    absurd (omega arith)
write_loop_lem port status m (suc left) i (c ∷ text) (busy ∷ waits) later done ready h small same =
    let (e, nonzero, rest) = h in
    let on : (c == 0) ≡ false = ground (arith, nonzero) in
    let next =
      write_loop_lem port status m left (i + 1) text waits later (out_byte (u16 port) (u8 c) ∷ done)
        ready rest (omega arith) (omega arith) in
    rw (e, on, write_serial_lem port status busy c (all_polls status waits later) done ready) next

-- On a line that is busy for any number of readings before each character, write_serial_str sends the
-- characters of a string of at most 256 of them, each once, in order, and reads no further.
pub write_serial_str-sent :
    (port status : ℕ) (m : Ram) (str : ℕ) (text waits later : List ℕ) (done : List Effect)
    → bit_and status 0x20 ≢ 0
    → Holds m str text
    → length text ≤ 256
    → length waits ≡ length text
    → write_serial_str port m str
        (record { answers = all_polls status waits later; effects = done })
      ≡ some (record { answers = later; effects = sent port text done })
unfolding write_serial_str
write_serial_str-sent port status m str text waits later done ready h small same =
    write_loop_lem port status m 256 str text waits later done ready h small same
