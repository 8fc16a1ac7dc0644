-- ===== src/Pci.antt =====
-- src/pci.c: the scan of the PCI buses. The configuration space is mapped into a memory of bytes.
-- Whether malloc
-- has memory for a record is a parameter; its addresses, and the printing, are left out.
pub mod Devices
pub mod Steps
pub mod Scan
pub mod Address
pub mod Texts
mod Tests
use bloreos.Base.{
  ℕ, zero, suc, ◌+◌, ◌-◌, ◌*◌, ◌/◌, ◌^◌, Bool, true, false, ◌&&◌, ◌||◌, Option, none, some, List,
  [], ◌∷◌, ◌++◌, length, Ram, update, ltb, ◌==◌, if◌then◌else◌, bit_and, bit_or, ◌<<<◌, u8,
  put_bytes, u16, u64,
}
use bloreos.Acpi.{word16, word32}
use bloreos.Pci.Texts.{get_device_str}

-- mcfg->mmio_base, mcfg->start and vmm_higher_half_offset
pub record Window : Type 0 where
  pub mmio_base : ℕ
  pub start : ℕ
  pub vmm_higher_half_offset : ℕ

pub record PciDevice : Type 0 where
  pub class_code : ℕ
  pub sub_class_code : ℕ
  pub bus : ℕ
  pub device : ℕ
  pub function : ℕ
  pub prog_if : ℕ
  pub address : ℕ
  pub header_type : ℕ
  pub description : List ℕ

-- (bus - start) << 20 | device << 15 | function << 12
unfoldable pub function_offset : Window → ℕ → ℕ → ℕ → ℕ
function_offset w bus device function =
    bit_or (bit_or (u64 (u64 (bus + 2 ^ 64 - w.start) * 2 ^ 20)) (device <<< 15)) (function <<< 12)

unfoldable pub config_address : Window → ℕ → ℕ → ℕ → ℕ → ℕ
unfolding function_offset
config_address w bus device function offset =
    u64 (w.mmio_base + w.vmm_higher_half_offset + offset + function_offset w bus device function)

-- _pci_mm_read; a size other than 1, 2 and 4 reads 0.
unfoldable pub pci_mm_read : Ram → Window → ℕ → ℕ → ℕ → ℕ → ℕ → ℕ
unfolding config_address
pci_mm_read m w bus device function offset size =
    let addr = config_address w bus device function offset in
    if size == 1
    then m addr
    else if size == 2
    then word16 m addr
    else if size == 4
    then word32 m addr
    else 0

unfoldable pub pci_device_read : Ram → Window → PciDevice → ℕ → ℕ → ℕ
unfolding pci_mm_read
pci_device_read m w dev offset size = pci_mm_read m w dev.bus dev.device dev.function offset size

unfoldable pub pci_device_write : Ram → Window → PciDevice → ℕ → ℕ → ℕ → Ram
unfolding config_address
pci_device_write m w dev offset size val =
    let addr = config_address w dev.bus dev.device dev.function offset in
    if size == 1
    then put_bytes 1 m addr val
    else if size == 2
    then put_bytes 2 m addr val
    else if size == 4
    then put_bytes 4 m addr val
    else m

module _ (m : Ram) (w : Window) where
  unfoldable pub read_vendor_id : ℕ → ℕ → ℕ → ℕ
  unfolding pci_mm_read
  read_vendor_id bus device function = u16 (pci_mm_read m w bus device function 0x0 2)

  unfoldable pub read_header_type : ℕ → ℕ → ℕ → ℕ
  unfolding pci_mm_read
  read_header_type bus device function = u8 (pci_mm_read m w bus device function 0xc 4 / 2 ^ 16)

  unfoldable pub read_class_code : ℕ → ℕ → ℕ → ℕ
  unfolding pci_mm_read
  read_class_code bus device function = u8 (pci_mm_read m w bus device function 0x8 4 / 2 ^ 24)

  unfoldable pub read_subclass_code : ℕ → ℕ → ℕ → ℕ
  unfolding pci_mm_read
  read_subclass_code bus device function = u8 (pci_mm_read m w bus device function 0x8 4 / 2 ^ 16)

  unfoldable pub read_prog_if : ℕ → ℕ → ℕ → ℕ
  unfolding pci_mm_read
  read_prog_if bus device function = u8 (pci_mm_read m w bus device function 0x8 4 / 2 ^ 8)

  -- The device that _check_function describes.
  unfoldable pub found_device : ℕ → ℕ → ℕ → ℕ → PciDevice
  unfolding read_class_code read_subclass_code read_prog_if config_address
  found_device bus device function header_type = record {
    class_code = read_class_code bus device function;
    sub_class_code = read_subclass_code bus device function;
    bus = bus;
    device = device;
    function = function;
    prog_if = read_prog_if bus device function;
    address = config_address w bus device function 0;
    header_type = header_type;
    description =
        get_device_str (read_class_code bus device function)
          (read_subclass_code bus device function);
  }

  unfoldable pub then_scan :
      Option (List PciDevice) → (List PciDevice → Option (List PciDevice)) → Option (List PciDevice)
  then_scan none rest = none
  then_scan (some ds) rest = rest ds

  -- Whether malloc has memory for the record that is number n, from 0, in the list.
  module _ (allocates : ℕ → Bool) where
    -- The list is pci_devices up to pci_device_cnt. Neither the result of malloc is checked nor the
    -- 32 entries of the array: `none` is a write through NULL or past the end.
    unfoldable pub check_function : ℕ → ℕ → ℕ → ℕ → List PciDevice → Option (List PciDevice)
    unfolding found_device
    check_function bus device function header_type ds =
        if allocates (length ds) && ltb (length ds) 32
        then some (ds ++ (found_device bus device function header_type ∷ []))
        else none

    unfoldable pub check_present : ℕ → ℕ → ℕ → ℕ → List PciDevice → Option (List PciDevice)
    unfolding check_function read_vendor_id
    check_present bus device function header_type ds =
        if read_vendor_id bus device function == 0xffff
        then some ds
        else check_function bus device function header_type ds

    -- for (function = ...; function < 8; function++), with `left` rounds to go
    unfoldable pub check_functions : ℕ → ℕ → ℕ → ℕ → ℕ → List PciDevice → Option (List PciDevice)
    unfolding check_present then_scan
    check_functions zero bus device function header_type ds = some ds
    check_functions (suc left) bus device function header_type ds =
        then_scan (check_present bus device function header_type ds)
          (check_functions left bus device (function + 1) header_type)

    unfoldable pub check_device : ℕ → ℕ → List PciDevice → Option (List PciDevice)
    unfolding check_functions check_present read_header_type read_vendor_id then_scan
    check_device bus device ds =
        let header_type = read_header_type bus device 0 in
        let one_function =
          (read_vendor_id bus device 0 == 0xffff) || (bit_and header_type 0x80 == 0) in
        then_scan (check_present bus device 0 header_type ds)
          (λ ds. if one_function then some ds else check_functions 7 bus device 1 header_type ds)

    -- The inner loop of _scan_all_buses.
    unfoldable pub scan_bus : ℕ → ℕ → ℕ → List PciDevice → Option (List PciDevice)
    unfolding check_device then_scan
    scan_bus zero bus device ds = some ds
    scan_bus (suc left) bus device ds =
        then_scan (check_device bus device ds) (scan_bus left bus (device + 1))

    unfoldable pub scan_buses : ℕ → ℕ → List PciDevice → Option (List PciDevice)
    unfolding scan_bus then_scan
    scan_buses zero bus ds = some ds
    scan_buses (suc left) bus ds = then_scan (scan_bus 32 bus 0 ds) (scan_buses left (bus + 1))

    unfoldable pub pci_init : List PciDevice → Option (List PciDevice)
    unfolding scan_buses
    pci_init ds = scan_buses 256 0 ds

unfoldable pub pci_find_device : List PciDevice → ℕ → ℕ → Option PciDevice
pci_find_device [] class subclass = none
pci_find_device (d ∷ ds) class subclass =
    let rest = pci_find_device ds class subclass in
    if (d.class_code == class) && (d.sub_class_code == subclass) then some d else rest
