-- ===== src/Kprintf.antt =====
-- kprintf of src/lib/str.c: the text goes to the serial port and to the terminal. `stack` is what its
-- own buffer held before, `below` what that of tprintf did.
pub mod Both
pub mod Lines
mod Tests
use bloreos.Base.{ℕ, List, [], Option, some, none, Ram, ◌>>=◌}
use bloreos.Ps2.{Io}
use bloreos.Str.Numbers.{Digits}
use bloreos.Str.Format.{Arg, vsnprintf}
use bloreos.Serial.{write_serial_str}
use bloreos.Terminal.{Terminal}
use bloreos.Terminal.Print.{tprintf}
use bloreos.Terminal.Input.{string_at}

abbrev pub port_com1 : ℕ
port_com1 = 0x3f8

-- What it does with the finished text; tprintf takes it as a format.
unfoldable pub log_text : Ram → Ram → Io → Terminal → Option (Io × Terminal)
log_text below text s t = do
  s' ← write_serial_str port_com1 text 0 s
  t' ← tprintf below (string_at 256 text 0) [] t
  some (s', t')

unfoldable pub kprintf : Ram → Ram → List ℕ → List Arg → Io → Terminal → Option (Io × Terminal)
kprintf stack below format args s t =
    vsnprintf stack 0 256 format args >>= λ text. log_text below text.mem s t
