-- ===== src/Pci/Scan.antt =====
-- What the scan of the buses in src/pci.c finds.
use bloreos.Base.{ℕ, ◌<◌, ◌≢◌, Bool, Option, none, some, List, Ram}
use bloreos.Pci.{Window, PciDevice, read_vendor_id, read_header_type, found_device}
use bloreos.Pci.Devices.{Has}
use bloreos.Pci.Steps.{AllPresent}

module _ (m : Ram) (w : Window) where
  -- The record of function 0 of a device.
  abbrev pub first_function : ℕ → ℕ → PciDevice
  first_function bus device = found_device m w bus device 0 (read_header_type m w bus device 0)

-- What the scan leaves; `none` is a write past the 32 entries of the array or through NULL.
abbrev pub Scanned : Ram → Window → (ℕ → Bool) → Option (List PciDevice) → Type 0
Scanned m w allocates none = Unit {0}
Scanned m w allocates (some ds) =
    AllPresent m w allocates ds
    × ((b d : ℕ)
        → b < 256
        → d < 32
        → read_vendor_id m w b d 0 ≢ 0xffff
        → Has (first_function m w b d) ds)
