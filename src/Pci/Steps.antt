-- ===== src/Pci/Steps.antt =====
-- The steps of the scan in src/pci.c: what each keeps and what it finds.
use bloreos.Base.{
  ℕ, zero, suc, ◌+◌, ◌≤◌, ◌≡◌, ◌≢◌, refl, ap, subst, Bool, true, false, Option, none, some, List,
  length, Ram, ltb, ◌==◌, ◌&&◌, if◌then◌else◌, arith, Bool-cases, inl, inr,
}
use bloreos.Pci.{
  Window, PciDevice, read_vendor_id, read_header_type, found_device, check_function, check_present,
  then_scan, check_functions, check_device, scan_bus, scan_buses,
}
use bloreos.Pci.Devices.{Has, Has-append, Has-last, new_or_old, length-snoc}

module _ (m : Ram) (w : Window) (allocates : ℕ → Bool) where
  -- A function of the list answers, and its record is what the configuration space says of it, with
  -- the header type of the device's function 0.
  pub record IsPresent (d : PciDevice) : Type 0 where
    pub answers : read_vendor_id m w d.bus d.device d.function ≢ 0xffff
    pub described :
        d ≡ found_device m w d.bus d.device d.function (read_header_type m w d.bus d.device 0)

  pub record AllPresent (ds : List PciDevice) : Type 0 where
    pub each : (d : PciDevice) → Has d ds → IsPresent d
    pub room : length ds ≤ 32

  -- A step of the scan keeps the devices that are there, and lists none that is not.
  abbrev pub Extends : List PciDevice → Option (List PciDevice) → Type 0
  Extends ds none = Unit {0}
  Extends ds (some ds') =
      ((d : PciDevice) → Has d ds → Has d ds') × (AllPresent ds → AllPresent ds')

  -- If the step has not run past the array, d is listed.
  abbrev pub Finds : PciDevice → Option (List PciDevice) → Type 0
  Finds d none = Unit {0}
  Finds d (some ds) = Has d ds

  Extends-same : (ds : List PciDevice) → Extends ds (some ds)
  Extends-same ds = (λ d h. h, λ a. a)

  then_scan-Extends :
      (ds : List PciDevice) (o : Option (List PciDevice))
      (rest : List PciDevice → Option (List PciDevice))
      → Extends ds o
      → ((ds' : List PciDevice) → Extends ds' (rest ds'))
      → Extends ds (then_scan m w o rest)
  unfolding then_scan
  then_scan-Extends ds none rest e r = tt
  then_scan-Extends ds (some ds') rest e r = both (rest ds') (r ds')
    where
      both : (o : Option (List PciDevice)) → Extends ds' o → Extends ds o
      both none f = tt
      both (some ds'') f = (λ d h. f.0 d (e.0 d h), λ a. f.1 (e.1 a))

  pub then_scan-Finds :
      (d : PciDevice) (o : Option (List PciDevice))
      (rest : List PciDevice → Option (List PciDevice))
      → Finds d o
      → ((ds' : List PciDevice) → Extends ds' (rest ds'))
      → Finds d (then_scan m w o rest)
  unfolding then_scan
  then_scan-Finds d none rest h r = tt
  then_scan-Finds d (some ds') rest h r = kept (rest ds') (r ds')
    where
      kept : (o : Option (List PciDevice)) → Extends ds' o → Finds d o
      kept none f = tt
      kept (some ds'') f = f.0 d h

  pub then_scan-later :
      (d : PciDevice) (o : Option (List PciDevice))
      (rest : List PciDevice → Option (List PciDevice))
      → ((ds' : List PciDevice) → Finds d (rest ds'))
      → Finds d (then_scan m w o rest)
  unfolding then_scan
  then_scan-later d none rest r = tt
  then_scan-later d (some ds') rest r = r ds'

  module _ (bus device function header_type : ℕ)
      (of_first : header_type ≡ read_header_type m w bus device 0) where
    check_function-Extends :
        (ds : List PciDevice)
        → read_vendor_id m w bus device function ≢ 0xffff
        → Extends ds (check_function m w allocates bus device function header_type ds)
    unfolding check_function found_device
    check_function-Extends ds there =
        elim (Bool-cases (allocates (length ds) && ltb (length ds) 32)) [
          | inl room ↦
              let new = found_device m w bus device function header_type in
              let new_present : IsPresent new = record {
                answers = there;
                described = ap (found_device m w bus device function) of_first;
              } in
              rw room (
                λ d h. Has-append d new ds h,
                λ a. record {
                  each = λ d h. elim (new_or_old d new ds h) [
                    | inl old ↦ a.each d old
                    | inr e ↦ subst IsPresent e new_present
                  ];
                  room = ground (arith, length-snoc new ds, room);
                },
              )
          | inr full ↦ rw full tt
        ]

    check_present-Extends :
        (ds : List PciDevice)
        → Extends ds (check_present m w allocates bus device function header_type ds)
    unfolding check_present
    check_present-Extends ds =
        elim (Bool-cases (read_vendor_id m w bus device function == 0xffff)) [
          | inl gone ↦ rw gone (Extends-same ds)
          | inr there ↦ rw there (check_function-Extends ds (ground (arith, there)))
        ]

  module _ (bus device function header_type : ℕ) where
    pub check_present-Finds :
        (ds : List PciDevice)
        → read_vendor_id m w bus device function ≢ 0xffff
        → Finds
            (found_device m w bus device function header_type)
            (check_present m w allocates bus device function header_type ds)
    unfolding check_present check_function
    check_present-Finds ds there =
        let answers : (read_vendor_id m w bus device function == 0xffff) ≡ false = ground arith in
        elim (Bool-cases (allocates (length ds) && ltb (length ds) 32)) [
          | inl room ↦ rw (answers, room) (Has-last _ ds)
          | inr full ↦ rw (answers, full) tt
        ]

  check_functions-Extends :
      (left bus device function header_type : ℕ)
      → header_type ≡ read_header_type m w bus device 0
      → (ds : List PciDevice)
      → Extends ds (check_functions m w allocates left bus device function header_type ds)
  unfolding check_functions
  check_functions-Extends zero bus device function header_type h ds = Extends-same ds
  check_functions-Extends (suc left) bus device function header_type h ds =
      then_scan-Extends ds _ _ (check_present-Extends bus device function header_type h ds)
        (check_functions-Extends left bus device (function + 1) header_type h)

  if_else :
      (b : Bool) (ds : List PciDevice) (o : Option (List PciDevice))
      → Extends ds o
      → Extends ds (if b then some ds else o)
  if_else true ds o e = Extends-same ds
  if_else false ds o e = e

  pub other_functions :
      (b : Bool) (bus device header_type : ℕ)
      → header_type ≡ read_header_type m w bus device 0
      → (ds : List PciDevice)
      → Extends ds
          (if b then some ds else check_functions m w allocates 7 bus device 1 header_type ds)
  other_functions b bus device header_type h ds =
      if_else b ds _ (check_functions-Extends 7 bus device 1 header_type h ds)

  check_device-Extends :
      (bus device : ℕ) (ds : List PciDevice) → Extends ds (check_device m w allocates bus device ds)
  unfolding check_device
  check_device-Extends bus device ds =
      then_scan-Extends ds _ _
        (check_present-Extends bus device 0 (read_header_type m w bus device 0) refl ds)
        (other_functions _ bus device (read_header_type m w bus device 0) refl)

  pub scan_bus-Extends :
      (left bus device : ℕ) (ds : List PciDevice)
      → Extends ds (scan_bus m w allocates left bus device ds)
  unfolding scan_bus
  scan_bus-Extends zero bus device ds = Extends-same ds
  scan_bus-Extends (suc left) bus device ds =
      then_scan-Extends ds _ _ (check_device-Extends bus device ds)
        (scan_bus-Extends left bus (device + 1))

  pub scan_buses-Extends :
      (left bus : ℕ) (ds : List PciDevice) → Extends ds (scan_buses m w allocates left bus ds)
  unfolding scan_buses
  scan_buses-Extends zero bus ds = Extends-same ds
  scan_buses-Extends (suc left) bus ds =
      then_scan-Extends ds _ _ (scan_bus-Extends 32 bus 0 ds) (scan_buses-Extends left (bus + 1))
