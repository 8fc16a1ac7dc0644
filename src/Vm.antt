-- ===== src/Vm.antt =====
-- src/vm.c: the walk through the four levels of page tables. The registers and the memory that
-- the tables stand in are arguments: `read` gives the 64-bit word at a virtual address.
pub mod Walk
mod Tests
use bloreos.Base.{
  ℕ, ◌+◌, ◌-◌, ◌*◌, ◌/◌, ◌^◌, Bool, true, false, not, ◌&&◌, List, [], ◌∷◌, ◌++◌, ◌==◌,
  if◌then◌else◌, Ram, bit_and, bit_or, ◌<<<◌, ◌>>>◌, u32, u64,
}

-- PML4_INDEX, PDPT_INDEX, PD_INDEX, PT_INDEX, PAGE_OFFSET
abbrev pub pml4_index : ℕ → ℕ
pml4_index va = bit_and (va >>> 39) 0x1ff

abbrev pub pdpt_index : ℕ → ℕ
pdpt_index va = bit_and (va >>> 30) 0x1ff

abbrev pub pd_index : ℕ → ℕ
pd_index va = bit_and (va >>> 21) 0x1ff

abbrev pub pt_index : ℕ → ℕ
pt_index va = bit_and (va >>> 12) 0x1ff

abbrev pub page_offset : ℕ → ℕ
page_offset va = bit_and va 0xfff

-- entry & PAGE_PRESENT
abbrev pub present : ℕ → Bool
present entry = not (bit_and entry 1 == 0)

-- (((uint64_t)1 << maxphyaddr) - 1) << 12
abbrev pub address_mask : ℕ → ℕ
address_mask maxphyaddr = u64 ((1 <<< maxphyaddr - 1) <<< 12)

module _ (read : Ram) (vmm_higher_half_offset maxphyaddr : ℕ) where
  -- table[index], for the table that an entry or CR3 points to
  unfoldable pub table_entry : ℕ → ℕ → ℕ
  table_entry entry index =
      read (u64 (bit_and entry (address_mask maxphyaddr) + vmm_higher_half_offset + 8 * index))

  -- 0: some entry on the way is not present.
  unfoldable pub walk_page_table : ℕ → ℕ → ℕ
  walk_page_table cr3 virt_addr =
      let pml4e = table_entry cr3 (pml4_index virt_addr) in
      let pdpte = table_entry pml4e (pdpt_index virt_addr) in
      let pde = table_entry pdpte (pd_index virt_addr) in
      let pte = table_entry pde (pt_index virt_addr) in
      if not (present pml4e)
      then 0
      else if not (present pdpte)
      then 0
      else if not (present pde)
      then 0
      else if not (present pte)
      then 0
      else bit_or (bit_and pte (address_mask maxphyaddr)) (page_offset virt_addr)

-- What vm_init reports, in order.
pub data Report : Type 0 where
  paging_on paging_off paging32 level4 level5 : Report

pub record Widths : Type 0 where
  pub maxphyaddr : ℕ
  pub maxlinaddr : ℕ
  pub reports : List Report

abbrev pub cr4_pae : ℕ
cr4_pae = 0x20

abbrev pub cr4_la57 : ℕ
cr4_la57 = 0x1000

-- `vm_init`, up to its walk of address 0, whose result is dropped: `val` is what
-- `cpu_get_address_widths` gives.
unfoldable pub vm_init : Bool → ℕ → ℕ → Widths
vm_init paging cr4 val =
    let pae = not (bit_and cr4 cr4_pae == 0) in
    let la57 = not (bit_and cr4 cr4_la57 == 0) in
    record {
      maxphyaddr = u32 (bit_and val 0xff);
      maxlinaddr = u32 (bit_and (val >>> 8) 0xff);
      reports =
          (if paging then paging_on else paging_off)
          ∷ ((if not pae then paging32 ∷ [] else [])
              ++ ((if pae && not la57 then level4 ∷ [] else [])
                  ++ (if pae && la57 then level5 ∷ [] else [])));
    }
