-- ===== src/Nvme/Tests.antt =====
-- A controller with a register for 16 kilobytes at the third such place.
use bloreos.Base.{ℕ, [], ◌+◌, ◌*◌, ◌^◌, ◌<◌, ◌≡◌, ◌==◌, refl, if◌then◌else◌, Ram, arith}
use bloreos.Acpi.{word32}
use bloreos.Pci.{Window, PciDevice, config_address, function_offset}
use bloreos.Nvme.{size_bar, pci_reg4_offset}
use bloreos.Nvme.Bar.{decoding, size_bar_lem}

abbrev window : Window
window = record { mmio_base = 0; start = 0; vmm_higher_half_offset = 0 }

abbrev controller : PciDevice
controller = record {
  class_code = 1;
  sub_class_code = 8;
  bus = 0;
  device = 0;
  function = 0;
  prog_if = 2;
  address = 0;
  header_type = 0;
  description = [];
}

-- 3 * 2^14 + 4, a 64-bit register, in the bytes from 16 on.
abbrev config : Ram
config a = if a == 16 then 4 else if a == 17 then 0xc0 else 0

config_byte : (a : ℕ) → config a < 256
config_byte a = ground arith

size_bar_lem_example :
    ((size_bar (decoding (2 ^ 14) 4) window controller config).length ≡ 2 ^ 14)
    × ((size_bar (decoding (2 ^ 14) 4) window controller config).base_addr
        ≡ word32 config (config_address window 0 0 0 (pci_reg4_offset + 4)) * 2 ^ 32 + 3 * 2 ^ 14)
    × ((size_bar (decoding (2 ^ 14) 4) window controller config).config 17 ≡ config 17)
unfolding config_address function_offset
size_bar_lem_example =
    size_bar_lem window controller config 14 3 4 17 config_byte (omega arith) (omega arith)
      (omega arith) refl
