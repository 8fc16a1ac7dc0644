-- ===== src/Pci/Devices.antt =====
-- The list of devices of src/pci.c, and pci_find_device.
use bloreos.Base.{
  ℕ, ◌+◌, ◌≡◌, ◌≢◌, refl, subst, ◌&&◌, Option, none, some, List, [], ◌∷◌, ◌++◌, length, ◌==◌, arith,
  Bool-cases, ◌⊎◌, inl, inr,
}
use bloreos.Pci.{PciDevice, pci_find_device}

-- d is in the list.
abbrev pub Has : PciDevice → List PciDevice → Type 0
Has d [] = ⊥
Has d (x ∷ xs) = (x ≡ d) ⊎ Has d xs

pub Has-append : (d e : PciDevice) (ds : List PciDevice) → Has d ds → Has d (ds ++ (e ∷ []))
Has-append d e [] h = absurd h
Has-append d e (x ∷ xs) (inl h) = inl h
Has-append d e (x ∷ xs) (inr h) = inr (Has-append d e xs h)

pub Has-last : (d : PciDevice) (ds : List PciDevice) → Has d (ds ++ (d ∷ []))
Has-last d [] = inl refl
Has-last d (x ∷ xs) = inr (Has-last d xs)

pub new_or_old :
    (d e : PciDevice) (ds : List PciDevice) → Has d (ds ++ (e ∷ [])) → Has d ds ⊎ (e ≡ d)
new_or_old d e [] (inl h) = inr h
new_or_old d e [] (inr h) = absurd h
new_or_old d e (x ∷ xs) (inl h) = inl (inl h)
new_or_old d e (x ∷ xs) (inr h) = elim (new_or_old d e xs h) [
  | inl old ↦ inl (inr old)
  | inr n ↦ inr n
]

pub length-snoc : (d : PciDevice) (ds : List PciDevice) → length (ds ++ (d ∷ [])) ≡ length ds + 1
length-snoc d [] = refl
length-snoc d (x ∷ xs) = omega (arith, length-snoc d xs)

-- What pci_find_device may answer.
abbrev pub Found : List PciDevice → ℕ → ℕ → Option PciDevice → Type 0
Found ds class subclass none =
    (d : PciDevice) → Has d ds → (d.class_code ≡ class) → d.sub_class_code ≢ subclass
Found ds class subclass (some d) = Has d ds × (d.class_code ≡ class) × (d.sub_class_code ≡ subclass)

not_the_first :
    (x : PciDevice) (ds : List PciDevice) (class subclass : ℕ) (o : Option PciDevice)
    → ((x.class_code ≡ class) → x.sub_class_code ≢ subclass)
    → Found ds class subclass o
    → Found (x ∷ ds) class subclass o
not_the_first x ds class subclass none other f = λ d h c. elim h [
  | inl e ↦
      subst (λ (y : PciDevice). (y.class_code ≡ class) → y.sub_class_code ≢ subclass) e other c
  | inr later ↦ f d later c
]
not_the_first x ds class subclass (some d) other f = (inr f.0, f.1, f.2)

-- pci_find_device answers with a device of the list that has the class and the sub-class, or with
-- NULL, and then no device of the list has them.
pub pci_find_device-Found :
    (ds : List PciDevice) (class subclass : ℕ)
    → Found ds class subclass (pci_find_device ds class subclass)
unfolding pci_find_device
pci_find_device-Found [] class subclass = λ d h. absurd h
pci_find_device-Found (x ∷ ds) class subclass =
    elim (Bool-cases ((x.class_code == class) && (x.sub_class_code == subclass))) [
      | inl here ↦ rw here (inl refl, ground (arith, here), ground (arith, here))
      | inr other ↦ rw other (
          not_the_first x ds class subclass _ (λ c s. ground (arith, other, c, s))
            (pci_find_device-Found ds class subclass))
    ]
