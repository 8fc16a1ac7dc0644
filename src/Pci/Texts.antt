-- ===== src/Pci/Texts.antt =====
-- The texts that describe a device in src/pci.c, as the bytes of the literals.
use bloreos.Base.{ℕ, List, [], ◌∷◌, ◌==◌, if◌then◌else◌}

abbrev pub unknown_device : List ℕ
unknown_device =
    b'U' ∷ b'n' ∷ b'k' ∷ b'n' ∷ b'o' ∷ b'w' ∷ b'n' ∷ b' ' ∷ b'D' ∷ b'e' ∷ b'v' ∷ b'i' ∷ b'c' ∷ b'e'
    ∷ []

abbrev pub serial_ata : List ℕ
serial_ata =
    b'M' ∷ b'a' ∷ b's' ∷ b's' ∷ b' ' ∷ b'S' ∷ b't' ∷ b'o' ∷ b'r' ∷ b'a' ∷ b'g' ∷ b'e' ∷ b' ' ∷ b'C'
    ∷ b'o' ∷ b'n' ∷ b't' ∷ b'r' ∷ b'o' ∷ b'l' ∷ b'l' ∷ b'e' ∷ b'r' ∷ b' ' ∷ b'-' ∷ b' ' ∷ b'S'
    ∷ b'e' ∷ b'r' ∷ b'i' ∷ b'a' ∷ b'l' ∷ b' ' ∷ b'A' ∷ b'T' ∷ b'A' ∷ b' ' ∷ b'C' ∷ b'o' ∷ b'n'
    ∷ b't' ∷ b'r' ∷ b'o' ∷ b'l' ∷ b'l' ∷ b'e' ∷ b'r' ∷ []

abbrev pub non_volatile : List ℕ
non_volatile =
    b'M' ∷ b'a' ∷ b's' ∷ b's' ∷ b' ' ∷ b'S' ∷ b't' ∷ b'o' ∷ b'r' ∷ b'a' ∷ b'g' ∷ b'e' ∷ b' ' ∷ b'C'
    ∷ b'o' ∷ b'n' ∷ b't' ∷ b'r' ∷ b'o' ∷ b'l' ∷ b'l' ∷ b'e' ∷ b'r' ∷ b' ' ∷ b'-' ∷ b' ' ∷ b'N'
    ∷ b'o' ∷ b'n' ∷ b'-' ∷ b'V' ∷ b'o' ∷ b'l' ∷ b'a' ∷ b't' ∷ b'i' ∷ b'l' ∷ b'e' ∷ b' ' ∷ b'M'
    ∷ b'e' ∷ b'm' ∷ b'o' ∷ b'r' ∷ b'y' ∷ b' ' ∷ b'C' ∷ b'o' ∷ b'n' ∷ b't' ∷ b'r' ∷ b'o' ∷ b'l'
    ∷ b'l' ∷ b'e' ∷ b'r' ∷ []

abbrev pub ethernet : List ℕ
ethernet =
    b'N' ∷ b'e' ∷ b't' ∷ b'w' ∷ b'o' ∷ b'r' ∷ b'k' ∷ b' ' ∷ b'C' ∷ b'o' ∷ b'n' ∷ b't' ∷ b'r' ∷ b'o'
    ∷ b'l' ∷ b'l' ∷ b'e' ∷ b'r' ∷ b' ' ∷ b'-' ∷ b' ' ∷ b'E' ∷ b't' ∷ b'h' ∷ b'e' ∷ b'r' ∷ b'n'
    ∷ b'e' ∷ b't' ∷ b' ' ∷ b'C' ∷ b'o' ∷ b'n' ∷ b't' ∷ b'r' ∷ b'o' ∷ b'l' ∷ b'l' ∷ b'e' ∷ b'r' ∷ []

abbrev pub vga : List ℕ
vga =
    b'D' ∷ b'i' ∷ b's' ∷ b'p' ∷ b'l' ∷ b'a' ∷ b'y' ∷ b' ' ∷ b'C' ∷ b'o' ∷ b'n' ∷ b't' ∷ b'r' ∷ b'o'
    ∷ b'l' ∷ b'l' ∷ b'e' ∷ b'r' ∷ b' ' ∷ b'-' ∷ b' ' ∷ b'V' ∷ b'G' ∷ b'A' ∷ b' ' ∷ b'C' ∷ b'o'
    ∷ b'm' ∷ b'p' ∷ b'a' ∷ b't' ∷ b'i' ∷ b'b' ∷ b'l' ∷ b'e' ∷ b' ' ∷ b'C' ∷ b'o' ∷ b'n' ∷ b't'
    ∷ b'r' ∷ b'o' ∷ b'l' ∷ b'l' ∷ b'e' ∷ b'r' ∷ []

abbrev pub host_bridge : List ℕ
host_bridge =
    b'B' ∷ b'r' ∷ b'i' ∷ b'd' ∷ b'g' ∷ b'e' ∷ b' ' ∷ b'-' ∷ b' ' ∷ b'H' ∷ b'o' ∷ b's' ∷ b't' ∷ b' '
    ∷ b'B' ∷ b'r' ∷ b'i' ∷ b'd' ∷ b'g' ∷ b'e' ∷ []

abbrev pub isa_bridge : List ℕ
isa_bridge =
    b'B' ∷ b'r' ∷ b'i' ∷ b'd' ∷ b'g' ∷ b'e' ∷ b' ' ∷ b'-' ∷ b' ' ∷ b'I' ∷ b'S' ∷ b'A' ∷ b' ' ∷ b'B'
    ∷ b'r' ∷ b'i' ∷ b'd' ∷ b'g' ∷ b'e' ∷ []

abbrev pub smbus : List ℕ
smbus =
    b'S' ∷ b'e' ∷ b'r' ∷ b'i' ∷ b'a' ∷ b'l' ∷ b' ' ∷ b'B' ∷ b'u' ∷ b's' ∷ b' ' ∷ b'C' ∷ b'o' ∷ b'n'
    ∷ b't' ∷ b'r' ∷ b'o' ∷ b'l' ∷ b'l' ∷ b'e' ∷ b'r' ∷ b' ' ∷ b'-' ∷ b' ' ∷ b'S' ∷ b'M' ∷ b'B'
    ∷ b'u' ∷ b's' ∷ b' ' ∷ b'C' ∷ b'o' ∷ b'n' ∷ b't' ∷ b'r' ∷ b'o' ∷ b'l' ∷ b'l' ∷ b'e' ∷ b'r' ∷ []

-- _get_device_str, a case of the outer switch after the other.
unfoldable pub get_device_str : ℕ → ℕ → List ℕ
get_device_str class_code sub_class_code =
    if class_code == 0x1
    then (if sub_class_code == 0x6
        then serial_ata
        else if sub_class_code == 0x8
        then non_volatile
        else unknown_device)
    else if class_code == 0x2
    then (if sub_class_code == 0x0 then ethernet else unknown_device)
    else if class_code == 0x3
    then (if sub_class_code == 0x0 then vga else unknown_device)
    else if class_code == 0x6
    then (if sub_class_code == 0x0
        then host_bridge
        else if sub_class_code == 0x1
        then isa_bridge
        else unknown_device)
    else if class_code == 0xc
    then (if sub_class_code == 0x5 then smbus else unknown_device)
    else unknown_device
