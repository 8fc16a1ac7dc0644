-- ===== src/Nvme.antt =====
-- src/drivers/nvme.c: the size and the address of the first base address register (BAR) of the NVMe
-- controller. What the controller makes of a value that is written to the register is a parameter.
pub mod Bar
mod Tests
use bloreos.Base.{
  ℕ, ◌+◌, ◌-◌, ◌*◌, ◌/◌, ◌^◌, Bool, List, Option, some, none, Ram, u32, u64, bit_and, bit_or,
}
use bloreos.Pci.{Window, PciDevice, pci_device_read, pci_device_write, pci_find_device}

abbrev pub pci_reg4_offset : ℕ
pci_reg4_offset = 0x10

-- What nvme_init finds out, and the memory with the configuration space.
pub record Controller : Type 0 where
  pub bar0 : ℕ
  pub base_addr : ℕ
  pub length : ℕ
  pub config : Ram

-- A write of BAR0: `latch` is what the register then holds.
unfoldable pub write_bar : (ℕ → ℕ) → Window → PciDevice → ℕ → Ram → Ram
write_bar latch w dev val m = pci_device_write m w dev pci_reg4_offset 4 (latch (u32 val))

-- ~(size_low & ~0b1111) + 1 in 32 bits
unfoldable pub bar_length : ℕ → ℕ
bar_length size_low = u32 (2 ^ 32 - 1 - bit_and size_low 0xfffffff0 + 1)

-- base_low | (uint64_t)base_high << 32
unfoldable pub bar_address : ℕ → ℕ → ℕ
bar_address bar0 base_high = bit_or (bit_and bar0 0xfffffff0) (u64 (base_high * 2 ^ 32))

unfoldable pub size_bar : (ℕ → ℕ) → Window → PciDevice → Ram → Controller
unfolding write_bar bar_length bar_address
size_bar latch w dev m =
    let bar0 = pci_device_read m w dev pci_reg4_offset 4 in
    let probed = write_bar latch w dev 0xffffffff m in
    let size_low = pci_device_read probed w dev pci_reg4_offset 4 in
    let restored = write_bar latch w dev bar0 probed in
    let base_high = pci_device_read restored w dev (pci_reg4_offset + 4) 4 in
    record {
      bar0 = bar0;
      base_addr = bar_address bar0 base_high;
      length = bar_length size_low;
      config = restored;
    }

-- nvme_init; `none` is a scan that found no controller.
unfoldable pub nvme_init : (ℕ → ℕ) → Window → List PciDevice → Ram → Option Controller
unfolding pci_find_device size_bar
nvme_init latch w devices m = elim (pci_find_device devices 0x01 0x08) [
  | none ↦ none
  | some dev ↦ some (size_bar latch w dev m)
]
