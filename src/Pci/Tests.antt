-- ===== src/Pci/Tests.antt =====
-- A configuration space where functions 0 and 1 of device 0 on bus 0 answer, the first with the bit for
-- several functions in its header type.
use bloreos.Base.{
  ℕ, ◌≡◌, refl, Bool, true, ltb, ◌==◌, if◌then◌else◌, some, [], ◌∷◌, map, ◌>>=◌, Ram, arith,
}
use bloreos.Pci.{
  Window, PciDevice, check_device, check_function, check_functions, found_device, read_vendor_id,
  read_header_type,
}
use bloreos.Pci.Address.{IsFunction, function_offset_unique}

abbrev two_functions : Ram
two_functions a = if a == 0xb000000e then 0x80 else if ltb a 0xb0002000 then 0x10 else 0xff

abbrev memory_for_all : ℕ → Bool
memory_for_all n = true

abbrev window : Window
window = record { mmio_base = 0xb0000000; start = 0; vmm_higher_half_offset = 0 }

two_listed :
    (check_device two_functions window memory_for_all 0 0 [] >>= λ ds.
    some (map {B = ℕ × ℕ} (λ (d : PciDevice). (d.function, d.header_type)) ds))
    ≡ some ((0, 0x80) ∷ (1, 0x80) ∷ [])
unfolding check_device check_function check_functions found_device read_vendor_id read_header_type
two_listed = refl

abbrev network_bus : ℕ
network_bus = 3

abbrev network_device : ℕ
network_device = 2

abbrev network_function : ℕ
network_function = 1

-- PCI_REG2_OFFSET
abbrev class_offset : ℕ
class_offset = 8

network-IsFunction : IsFunction window 3 2 1
network-IsFunction = record {
  in_window = omega arith;
  bus_byte = omega arith;
  device_bits = omega arith;
  function_bits = omega arith;
}

function_offset_unique_example :
    (network_bus ≡ 3) × (network_device ≡ 2) × (network_function ≡ 1) × (class_offset ≡ 8)
function_offset_unique_example =
    function_offset_unique window network_bus network_device network_function class_offset 3 2 1 8
      network-IsFunction network-IsFunction (omega arith) (omega arith) refl
