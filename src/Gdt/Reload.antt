-- ===== src/Gdt/Reload.antt =====
-- Loading the global descriptor table in src/gdt.c, and what the segment registers then select.
use bloreos.Base.{ℕ, ◌+◌, ◌*◌, ◌/◌, ◌≤◌, ◌≡◌, refl, List, [], ◌∷◌, Option, some, none, arith}
use bloreos.Gdt.{GdtEntry, init_gdt, code_access, data_access, gdt_limit}

-- The register of the table and the segment registers.
pub record Segments : Type 0 where
  pub gdtr_limit : ℕ
  pub gdtr_base : ℕ
  pub cs : ℕ
  pub ds : ℕ
  pub es : ℕ
  pub fs : ℕ
  pub gs : ℕ
  pub ss : ℕ

-- gdtp, a `struct gdt_ptr`.
pub record GdtPtr : Type 0 where
  pub limit : ℕ
  pub base : ℕ

-- lretq: the address, then the selector of the code segment.
unfoldable pub lretq : List ℕ → Segments → Option (ℕ × List ℕ × Segments)
lretq [] s = none
lretq (rip ∷ []) s = none
lretq (rip ∷ cs ∷ stack) s = some (rip, stack, record s { cs = cs })

-- _gdt_reload on a stack, with the address of the label 1; where it goes on, and with which stack.
unfoldable pub gdt_reload : GdtPtr → ℕ → List ℕ → Segments → Option (ℕ × List ℕ × Segments)
unfolding lretq
gdt_reload gdtp label stack s =
    let loaded = record s { gdtr_limit = gdtp.limit; gdtr_base = gdtp.base } in
    at_label (lretq (label ∷ 0x08 ∷ stack) loaded)
  where
    at_label : Option (ℕ × List ℕ × Segments) → Option (ℕ × List ℕ × Segments)
    at_label none = none
    at_label (some (rip, rest, s)) =
        some (rip, rest, record s { ds = 0x10; es = 0x10; fs = 0x10; gs = 0x10; ss = 0x10 })

-- The entry of a selector, of eight bytes, and whether the limit has all of them.
abbrev pub selected : (ℕ → GdtEntry) → ℕ → GdtEntry
selected gdt selector = gdt (selector / 8)

abbrev pub IsSelectable : Segments → ℕ → Type 0
IsSelectable s selector = selector / 8 * 8 + 7 ≤ s.gdtr_limit

-- With the table of init_gdt, _gdt_reload goes on at its label with the stack as it was, the code
-- segment selects the entry for code, each of the five data segments that for data, and both entries
-- lie inside the table's limit.
pub gdt_reload-selects :
    (gdt : ℕ → GdtEntry) (base label : ℕ) (stack : List ℕ) (s : Segments)
    → (s' : Segments) × (gdt_reload (record { limit = gdt_limit; base = base }) label stack s
        ≡ some (label, stack, s'))
      × ((selected (init_gdt gdt) s'.cs).access ≡ code_access)
      × ((selected (init_gdt gdt) s'.ds).access ≡ data_access)
      × ((selected (init_gdt gdt) s'.es).access ≡ data_access)
      × ((selected (init_gdt gdt) s'.fs).access ≡ data_access)
      × ((selected (init_gdt gdt) s'.gs).access ≡ data_access)
      × ((selected (init_gdt gdt) s'.ss).access ≡ data_access)
      × IsSelectable s' s'.cs
      × IsSelectable s' s'.ss
unfolding gdt_reload init_gdt
gdt_reload-selects gdt base label stack s = (
  record {
    gdtr_limit = gdt_limit;
    gdtr_base = base;
    cs = 0x08;
    ds = 0x10;
    es = 0x10;
    fs = 0x10;
    gs = 0x10;
    ss = 0x10;
  },
  refl,
  refl,
  refl,
  refl,
  refl,
  refl,
  refl,
  omega arith,
  omega arith,
)
