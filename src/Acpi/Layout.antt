-- ===== src/Acpi/Layout.antt =====
-- The packed structures of src/include/acpi.h and src/acpi.c, as the sizes of their fields in bytes, and
-- that the code's accesses are those of the fields.
use bloreos.Base.{
  ℕ, zero, suc, ◌+◌, ◌-◌, ◌*◌, ◌/◌, ◌^◌, ◌≡◌, refl, Bool, true, false, List, [], ◌∷◌, ◌++◌, Ram,
  leb, ◌==◌, if◌then◌else◌, u32, u64, get_or, get_bytes, arith, ap, ap₂, ltb, ◌&&◌, some, sym,
  fun_ext, ◌∙◌,
}
use bloreos.Atomic.{Outcome, returns, halts}
use bloreos.Acpi.{Acpi, word16, word32, word64, table_entry_at, walk_tables, acpi_init}
use bloreos.Ioapic.{Ioapics, ioapic_max_gsi, manages, ioapic_redirect_gsi, redirect_by}
use bloreos.Hpet.{table_address}

abbrev pub sysdesc : List ℕ
sysdesc = 4 ∷ 4 ∷ 1 ∷ 1 ∷ 6 ∷ 8 ∷ 4 ∷ 4 ∷ 4 ∷ []

abbrev pub ioapic : List ℕ
ioapic = 1 ∷ 1 ∷ 1 ∷ 1 ∷ 4 ∷ 4 ∷ []

abbrev pub iso : List ℕ
iso = 1 ∷ 1 ∷ 1 ∷ 1 ∷ 4 ∷ 2 ∷ []

abbrev pub address_structure : List ℕ
address_structure = 1 ∷ 1 ∷ 1 ∷ 1 ∷ 8 ∷ []

-- The four bit fields share a byte.
abbrev pub hpet : List ℕ
hpet = sysdesc ++ (1 ∷ 1 ∷ 2 ∷ []) ++ address_structure ++ (1 ∷ 2 ∷ 1 ∷ [])

abbrev pub mcfg_entry : List ℕ
mcfg_entry = sysdesc ++ (8 ∷ 8 ∷ 2 ∷ 1 ∷ 1 ∷ 4 ∷ [])

abbrev pub rsdp : List ℕ
rsdp = 8 ∷ 1 ∷ 6 ∷ 1 ∷ 4 ∷ 4 ∷ 8 ∷ 1 ∷ 3 ∷ []

-- Up to its entries.
abbrev pub rsdt : List ℕ
rsdt = 4 ∷ 4 ∷ 1 ∷ 1 ∷ 6 ∷ 8 ∷ 4 ∷ 4 ∷ 4 ∷ []

abbrev pub xsdt : List ℕ
xsdt = 4 ∷ 4 ∷ 1 ∷ 1 ∷ 6 ∷ 8 ∷ 4 ∷ 4 ∷ 4 ∷ []

abbrev pub madt : List ℕ
madt = sysdesc ++ (4 ∷ 4 ∷ [])

-- The distance of field n from the start, and the size of the whole.
abbrev pub offset_of : List ℕ → ℕ → ℕ
offset_of [] n = 0
offset_of (size ∷ sizes) zero = 0
offset_of (size ∷ sizes) (suc n) = size + offset_of sizes n

abbrev pub size_of : List ℕ → ℕ
size_of [] = 0
size_of (size ∷ sizes) = size + size_of sizes

-- Field n of the structure at an address, the lowest byte first.
abbrev pub field : List ℕ → Ram → ℕ → ℕ → ℕ
field sizes m a n = get_bytes (get_or sizes n 0) m (a + offset_of sizes n)

word32_lem : (m : Ram) (a : ℕ) → word32 m a ≡ get_bytes 4 m a
unfolding get_bytes
word32_lem m a = grind arith

get_bytes_split :
    (m : Ram) (a : ℕ) → get_bytes 8 m a ≡ get_bytes 4 m a + get_bytes 4 m (a + 4) * 2 ^ 32
unfolding get_bytes
get_bytes_split m a = grind arith

byte_lem : (m : Ram) (a : ℕ) → get_bytes 1 m a ≡ m a
unfolding get_bytes
byte_lem m a = omega arith

word16_lem : (m : Ram) (a : ℕ) → word16 m a ≡ get_bytes 2 m a
unfolding get_bytes
word16_lem m a = omega arith

word64_lem : (m : Ram) (a : ℕ) → word64 m a ≡ get_bytes 8 m a
word64_lem m a = rw (word32_lem m a, word32_lem m (a + 4), get_bytes_split m a) refl

-- The entries of the two tables, behind their headers.
abbrev pub entry_by_fields : Bool → Ram → ℕ → ℕ → ℕ → ℕ
entry_by_fields true m higher_half a i =
    u64 (get_bytes 8 m (a + size_of xsdt + i * 8) + higher_half)
entry_by_fields false m higher_half a i =
    u64 (get_bytes 4 m (a + size_of rsdt + i * 4) + higher_half)

-- acpi_init with the revision of the RSDP, its two addresses, and the length of a table.
abbrev pub init_with : ℕ → ℕ → ℕ → (ℕ → ℕ) → Ram → ℕ → Acpi → Outcome Acpi ℕ
init_with revision rsdt_addr xsdt_addr length m higher_half s =
    let xsdt_enabled = leb 2 revision in
    let table = u64 ((if xsdt_enabled then xsdt_addr else rsdt_addr) + higher_half) in
    let entries_size = u32 (length table + 2 ^ 32 - size_of sysdesc) in
    let entry_size = if xsdt_enabled then entries_size / 8 else entries_size / 4 in
    let s' = walk_tables entry_size xsdt_enabled m higher_half table 0 s in
    if s'.mcfg == 0 then halts s' else returns s' entry_size

abbrev pub init_by_fields : Ram → ℕ → ℕ → Acpi → Outcome Acpi ℕ
init_by_fields m higher_half a s =
    init_with (field rsdp m a 3) (field rsdp m a 4) (field rsdp m a 6) (λ t. field sysdesc m t 1) m
      higher_half s

table_entry_at-fields :
    (xsdt_enabled : Bool) (m : Ram) (higher_half a i : ℕ)
    → table_entry_at xsdt_enabled m higher_half a i ≡ entry_by_fields xsdt_enabled m higher_half a i
unfolding table_entry_at
table_entry_at-fields true m higher_half a i =
    ap (λ w. u64 (w + higher_half)) (word64_lem m (a + 36 + i * 8))
table_entry_at-fields false m higher_half a i =
    ap (λ w. u64 (w + higher_half)) (word32_lem m (a + 36 + i * 4))

acpi_init_lem :
    (m : Ram) (higher_half a : ℕ) (s : Acpi)
    → acpi_init m higher_half a s ≡ init_by_fields m higher_half a s
unfolding acpi_init
acpi_init_lem m higher_half a s =
    ap
      (λ v.
        init_with v (word32 m (a + 16)) (word64 m (a + 24)) (λ t. word32 m (t + 4)) m higher_half s)
      (sym (byte_lem m (a + 15)))
    ∙ ap
        (λ v.
          init_with (field rsdp m a 3) v (word64 m (a + 24)) (λ t. word32 m (t + 4)) m higher_half
            s)
        (word32_lem m (a + 16))
    ∙ ap
        (λ v.
          init_with (field rsdp m a 3) (field rsdp m a 4) v (λ t. word32 m (t + 4)) m higher_half s)
        (word64_lem m (a + 24))
    ∙ ap (λ v. init_with (field rsdp m a 3) (field rsdp m a 4) (field rsdp m a 6) v m higher_half s)
        (fun_ext (λ t. word32_lem m (t + 4)))

-- acpi_init reads the revision and the addresses of the RSDP and the lengths of the tables where the
-- structures have these fields; the entries of the two tables stand behind their headers; the HPET's
-- address is where its table has the address of the address structure; and the base of an I/O APIC, and
-- the interrupt and the flags of an override, are read where their structures have them.
pub acpi_init-fields :
    (m : Ram) (higher_half a : ℕ) (s : Acpi)
    → (acpi_init m higher_half a s ≡ init_by_fields m higher_half a s)
      × ((enabled : Bool) (i : ℕ)
          → table_entry_at enabled m higher_half a i ≡ entry_by_fields enabled m higher_half a i)
      × (table_address m a ≡ field hpet m a 16)
      × ((o : Ioapics) (gsi : ℕ)
          → manages m o gsi a
            ≡ (leb (field ioapic m a 5) gsi && ltb gsi (field ioapic m a 5 + ioapic_max_gsi o a)))
      × ((o : Ioapics) (lapic_id vector irq : ℕ) (status : Bool)
          → redirect_by m s o lapic_id vector irq status (some a)
            ≡ ioapic_redirect_gsi m s o lapic_id vector (field iso m a 4) (field iso m a 5) status)
unfolding manages redirect_by
acpi_init-fields m higher_half a s = (
  acpi_init_lem m higher_half a s,
  λ enabled i. table_entry_at-fields enabled m higher_half a i,
  refl,
  λ o gsi. ap (λ base. leb base gsi && ltb gsi (base + ioapic_max_gsi o a)) (word32_lem m (a + 8)),
  λ o lapic_id vector irq status.
      ap₂ (λ gsi flags. ioapic_redirect_gsi m s o lapic_id vector gsi flags status)
        (word32_lem m (a + 4)) (word16_lem m (a + 8)),
)
