-- ===== src/Ps2.antt =====
-- src/drivers/ps2.c: the keyboard controller. The device is a parameter: the bytes that successive
-- `inb`s return. Polling a device that never answers does not end, which is `none`.
pub mod Keys
pub mod Table
mod Tests
use bloreos.Base.{
  ℕ, zero, suc, Bool, true, false, List, [], ◌∷◌, Option, some, none, ◌==◌, if◌then◌else◌, bit_and,
  bit_or,
}
use bloreos.Ps2.Keys.{KeyEvent, key_map, KeyTable, register_keys}

pub data Effect : Type 0 where
  out_byte : ℕ → ℕ → Effect
  redirect_irq : ℕ → ℕ → Effect

-- The answers that are still to come, and what was done, the last first.
pub record Io : Type 0 where
  pub answers : List ℕ
  pub effects : List Effect

-- `while ((inb(PORT_PS2_STATUSCMD) & mask) == 0);` for reading, and `!= 0` for writing.
unfoldable pub wait_set : ℕ → List ℕ → Option (List ℕ)
wait_set mask [] = none
wait_set mask (status ∷ later) =
    let rest = wait_set mask later in if bit_and status mask == 0 then rest else some later

unfoldable pub wait_clear : ℕ → List ℕ → Option (List ℕ)
wait_clear mask [] = none
wait_clear mask (status ∷ later) =
    let rest = wait_clear mask later in if bit_and status mask == 0 then some later else rest

unfoldable pub next_byte : List Effect → List ℕ → Option (ℕ × Io)
next_byte done [] = none
next_byte done (v ∷ later) = some (v, record { answers = later; effects = done })

unfoldable pub ps2_read_no_wait : Io → Option (ℕ × Io)
unfolding next_byte
ps2_read_no_wait s = next_byte s.effects s.answers

unfoldable pub read_ready : List Effect → Option (List ℕ) → Option (ℕ × Io)
unfolding ps2_read_no_wait
read_ready done none = none
read_ready done (some later) = ps2_read_no_wait (record { answers = later; effects = done })

unfoldable pub ps2_read : Io → Option (ℕ × Io)
unfolding read_ready wait_set
ps2_read s = read_ready s.effects (wait_set 1 s.answers)

unfoldable pub write_ready : ℕ → ℕ → List Effect → Option (List ℕ) → Option Io
write_ready port value done none = none
write_ready port value done (some later) =
    some (record { answers = later; effects = out_byte port value ∷ done })

unfoldable pub ps2_write : ℕ → ℕ → Io → Option Io
unfolding write_ready wait_clear
ps2_write port value s = write_ready port value s.effects (wait_clear 2 s.answers)

unfoldable pub followed_by : {A B : Type 0} → Option A → (A → Option B) → Option B
followed_by none k = none
followed_by (some a) k = k a

unfoldable pub ps2_read_config : Io → Option (ℕ × Io)
unfolding ps2_write ps2_read followed_by
ps2_read_config s = followed_by (ps2_write 0x64 0x20 s) (λ s. ps2_read s)

-- The command byte is PORT_PS2_DATA, 0x60.
unfoldable pub ps2_write_config : ℕ → Io → Option Io
unfolding ps2_write followed_by
ps2_write_config value s = followed_by (ps2_write 0x64 0x60 s) (λ s. ps2_write 0x60 value s)

-- Interrupts and scan-code translation, and the mouse interrupt if bit 5 says there is a mouse.
unfoldable pub new_config : ℕ → ℕ
new_config config = let on = bit_or config 0x41 in if bit_and on 0x20 == 0 then on else bit_or on 2

unfoldable pub enable_mouse : ℕ → Io → Option Io
unfolding ps2_write
enable_mouse config s = if bit_and config 0x20 == 0 then some s else ps2_write 0x64 0xa8 s

-- The redirect of IRQ 1 to KEYBOARD_VECTOR.
unfoldable pub redirect_keyboard : Io → Io
redirect_keyboard s = record { answers = s.answers; effects = redirect_irq 33 1 ∷ s.effects }

-- ps2_init up to the loop over the key map.
unfoldable pub ps2_setup : Io → Option Io
unfolding ps2_write ps2_read_no_wait ps2_read_config ps2_write_config new_config enable_mouse
    redirect_keyboard followed_by
ps2_setup s = followed_by (ps2_write 0x64 0xad s) (λ s. followed_by (ps2_write 0x64 0xa7 s) (λ s.
    followed_by (ps2_read_no_wait s) (λ (flushed, s).
      followed_by (ps2_read_config s) (λ (config, s).
        followed_by (ps2_write_config (new_config config) s) (λ s.
          followed_by (ps2_write 0x64 0xae (redirect_keyboard s))
            (λ s. enable_mouse (new_config config) s))))))

unfoldable pub ps2_init : KeyTable → Io → Option (KeyTable × Io)
unfolding ps2_setup register_keys followed_by
ps2_init keys s = followed_by (ps2_setup s) (λ s. some (register_keys key_map keys, s))
