-- ===== src/Slob.antt =====
-- src/alloc/slob.c, the allocator behind `malloc` and `free` of src/alloc/alloc.c: a list of free
-- stretches of physical memory. The list is held as a list here, each element with the address of
-- its node, and `heap` is the memory that the headers are written to, a word at an address.
pub mod Held
pub mod Twice
pub mod Laws
mod Tests
use bloreos.Base.{
  ℕ, zero, suc, ◌+◌, ◌-◌, ◌*◌, ◌^◌, Bool, true, false, ◌&&◌, Option, none, some, List, [], ◌∷◌, ltb,
  leb, ◌==◌, if◌then◌else◌, Ram, update, u64,
}
use bloreos.Atomic.{Outcome, returns, spins, halts, faults}
use bloreos.Boot.{Region, Map, usable, memmap_alloc}

-- `struct SlobEntry`; `pNext` is the next element of the list.
pub record SlobEntry : Type 0 where
  pub node : ℕ
  pub base : ℕ
  pub length : ℕ

-- sizeof(struct SlobEntry), sizeof(struct SlobHeader)
abbrev pub entry_size : ℕ
entry_size = 24

abbrev pub header_size : ℕ
header_size = 8

pub record Slob : Type 0 where
  pub init : ℕ
  pub entries : List SlobEntry
  pub heap : Ram
  pub memory : Map

-- The first loop of slob_init.
unfoldable pub count_usable : List Region → ℕ
count_usable [] = 0
count_usable (r ∷ rs) = if r.kind == usable then count_usable rs + 1 else count_usable rs

-- The second loop: the k-th usable region goes to the k-th node of the array.
unfoldable pub slob_entries : ℕ → List Region → List SlobEntry
slob_entries node [] = []
slob_entries node (r ∷ rs) =
    if r.kind == usable
    then record { node = node; base = r.base; length = r.length }
      ∷ slob_entries (node + entry_size) rs
    else slob_entries node rs

-- `before` is what the memory for the nodes holds.
unfoldable pub slob_init : Slob → Ram → Outcome Slob (Option ℕ)
unfolding count_usable slob_entries
slob_init s before =
    elim (memmap_alloc s.memory before (u64 (entry_size * count_usable s.memory.regions))) [
      | none ↦ halts s
      | some (p, _, memory) ↦
          returns (record s { entries = slob_entries p memory.regions; memory = memory }) none
    ]

unfoldable pub skip : SlobEntry → Option (ℕ × List SlobEntry) → Option (ℕ × List SlobEntry)
skip e none = none
skip e (some (a, es)) = some (a, e ∷ es)

-- The loop of slob_malloc: the first entry with room for the header and `size` bytes gives up its
-- first bytes. The result is their physical address and the list after it.
unfoldable pub take_entry : ℕ → List SlobEntry → Option (ℕ × List SlobEntry)
unfolding skip
take_entry size [] = none
take_entry size (e ∷ es) =
    if leb (u64 (size + header_size)) e.length
    then (let total = u64 (header_size + size) in
        some (e.base, record e { base = u64 (e.base + total); length = e.length - total } ∷ es))
    else skip e (take_entry size es)

-- What slob_malloc does with the entry: `none` is NULL.
unfoldable pub hand_out : Slob → ℕ → Option (ℕ × List SlobEntry) → Outcome Slob (Option ℕ)
hand_out s size none = returns s none
hand_out s size (some (a, es)) =
    let offset = s.memory.vmm_higher_half_offset in
    returns
      (record s {
        entries = es;
        heap = update s.heap (u64 (a + offset)) (u64 (header_size + size));
      })
      (some (u64 (a + header_size + offset)))

unfoldable pub slob_search : Slob → ℕ → Outcome Slob (Option ℕ)
unfolding take_entry hand_out
slob_search s size = hand_out s size (take_entry size s.entries)

unfoldable pub slob_malloc : Slob → Ram → ℕ → Outcome Slob (Option ℕ)
unfolding slob_init slob_search
slob_malloc s before size =
    if s.init == 0
    then (elim (slob_init s before) [
      | returns s' _ ↦ slob_search (record s' { init = 1 }) size
      | spins ↦ spins
      | halts s' ↦ halts s'
      | faults ↦ faults
    ])
    else slob_search s size

-- What slob_free does with the node that slob_malloc gave it.
unfoldable pub give_back : ℕ → Outcome Slob (Option ℕ) → Outcome Slob (Option ℕ)
give_back header (returns s (some node)) =
    returns
      (record s {
        entries =
            (record {
              node = node;
              base = u64 (header + 2 ^ 64 - s.memory.vmm_higher_half_offset);
              length = s.heap header;
            }
              ∷ s.entries);
      })
      none
give_back header (returns s none) = faults
give_back header spins = spins
give_back header (halts s) = halts s
give_back header faults = faults

unfoldable pub slob_free : Slob → Ram → ℕ → Outcome Slob (Option ℕ)
unfolding slob_malloc give_back
slob_free s before ptr =
    give_back (u64 (ptr + 2 ^ 64 - header_size)) (slob_malloc s before entry_size)

-- malloc and free of src/alloc/alloc.c, as it is built.
unfoldable pub malloc : Slob → Ram → ℕ → Outcome Slob (Option ℕ)
unfolding slob_malloc
malloc s before size = slob_malloc s before size

unfoldable pub free : Slob → Ram → ℕ → Outcome Slob (Option ℕ)
unfolding slob_free
free s before ptr = slob_free s before ptr
