-- ===== src/Serial.antt =====
-- src/serial.c and src/pit.c: the serial port and the timer that is switched off, over the answers
-- that successive `inb`s return.
pub mod Sent
use bloreos.Base.{
  ℕ, zero, suc, ◌+◌, Bool, true, false, List, [], ◌∷◌, Option, some, none, ◌==◌, if◌then◌else◌, Ram,
  u8, u16, ◌>>=◌,
}
use bloreos.Ps2.{Effect, out_byte, Io, wait_set}
use bloreos.Str.Numbers.{Digits}
use bloreos.Str.Format.{Arg, vsnprintf}

-- The port number has 16 bits.
unfoldable pub out_port : ℕ → ℕ → Io → Io
out_port port value s = record s { effects = out_byte (u16 port) (u8 value) ∷ s.effects }

-- init_serial up to the first answer.
unfoldable pub set_serial : ℕ → Io → Io
unfolding out_port
set_serial port s =
    let quiet = out_port (port + 3) 0x80 (out_port (port + 1) 0x00 s) in
    let baud = out_port (port + 1) 0x00 (out_port (port + 0) 0x03 quiet) in
    let framed = out_port (port + 2) 0xc7 (out_port (port + 3) 0x03 baud) in
    let looped = out_port (port + 4) 0x1e (out_port (port + 4) 0x0b framed) in
    out_port (port + 0) 0xae looped

-- With what init_serial returns, 0 or 1; `none` has no answer.
unfoldable pub init_serial : ℕ → Io → Option (ℕ × Io)
unfolding set_serial out_port
init_serial port s = let asked = set_serial port s in answered asked.answers asked.effects
  where
    answered : List ℕ → List Effect → Option (ℕ × Io)
    answered [] done = none
    answered (v ∷ later) done =
        let s' : Io = record { answers = later; effects = done } in
        if v == 0xae then some (0, out_port (port + 4) 0x0f s') else some (1, s')

-- write_serial, with the loop on is_transmit_empty.
unfoldable pub write_serial : ℕ → ℕ → Io → Option Io
unfolding wait_set out_port
write_serial port a s =
    wait_set 0x20 s.answers >>= λ later. some (out_port port a (record s { answers = later }))

-- for (int i = 0; i < 256; i++), with `left` rounds to go, at the address `i` of the character
unfoldable pub write_loop : ℕ → ℕ → Ram → ℕ → Io → Option Io
write_loop zero port str i s = some s
write_loop (suc left) port str i s =
    let rest = write_serial port (str i) s >>= write_loop left port str (i + 1) in
    if str i == 0 then some s else rest

unfoldable pub write_serial_str : ℕ → Ram → ℕ → Io → Option Io
unfolding write_loop
write_serial_str port m str s = write_loop 256 port m str s

-- The local array of 256 bytes stands at address 0 of `stack`.
unfoldable pub write_serial_strf : ℕ → Ram → List ℕ → List Arg → Io → Option Io
write_serial_strf port stack format args s =
    vsnprintf stack 0 256 format args >>= λ text. write_serial_str port text.mem 0 s

unfoldable pub pit_disable_timer : Io → Io
unfolding out_port
pit_disable_timer s = out_port 0x40 0 (out_port 0x40 0 (out_port 0x43 0x30 s))
