-- ===== src/Slob/Tests.antt =====
-- A free list of two entries, a block of 72 bytes that a client holds, and the start from two regions.
use bloreos.Base.{◌+◌, ◌≡◌, refl, none, List, [], ◌∷◌, arith, ltb, if◌then◌else◌, u64}
use bloreos.Atomic.{returns}
use bloreos.Boot.{Region, Map}
use bloreos.Slob.{Slob, slob_malloc, slob_free, header_size}
use bloreos.Slob.Laws.{IsValid, Malloced, IsLive, Freed, slob_malloc-Malloced, slob_free-Freed}

abbrev two_regions : List Region
two_regions =
    record { base = 0x1000; length = 0x2000; kind = 0 }
    ∷ record { base = 0x10000; length = 0x8000; kind = 0 }
    ∷ []

abbrev memory : Map
memory = record {
  regions = [];
  max_pages_available = 10;
  total_memory_bytes = 0xa000;
  highest_address = 0x18000;
  lowest_address = 0x1000;
  num_pages_in_map = 23;
  num_pages_available = 0;
  vmm_higher_half_offset = 0;
  page_bitmap = λ i. 0xff;
  entry_map = λ i. 0;
}

abbrev two_entries : Slob
two_entries = record {
  init = 1;
  entries =
      record { node = 0x500; base = 0x1000; length = 16 }
      ∷ record { node = 0x518; base = 0x2000; length = 0x1000 }
      ∷ [];
  heap = λ a. if ltb a 0x8000 then 72 else 0;
  memory = memory;
}

two_entries-IsValid : IsValid two_entries
two_entries-IsValid = record {
  started = refl;
  ends = (omega arith, (omega arith, tt));
  once = λ x. ground arith;
  offset_word = omega arith;
}

block-IsLive : IsLive two_entries 0x4000 72
block-IsLive = record {
  header = refl;
  ends = omega arith;
  some_bytes = omega arith;
  not_held = λ x h. ground (arith, h);
}

slob_malloc-Malloced_example : Malloced two_entries 100 (slob_malloc two_entries (λ a. 0) 100)
slob_malloc-Malloced_example =
    slob_malloc-Malloced two_entries (λ a. 0) 100 two_entries-IsValid (omega arith)

slob_free-Freed_example :
    (s' : Slob) × (slob_free two_entries
        (λ a. 0)
        (u64 (0x4000 + header_size + two_entries.memory.vmm_higher_half_offset))
      ≡ returns s' none)
    × Freed two_entries 0x4000 72 s'
slob_free-Freed_example =
    slob_free-Freed two_entries (λ a. 0) 0x4000 72 two_entries-IsValid block-IsLive refl

-- The state before slob_init, and after it: the nodes take the first page of the first region.
abbrev cold : Slob
cold = record {
  init = 0;
  entries = [];
  heap = λ a. 0;
  memory = record memory { regions = two_regions };
}

abbrev initialised : Slob
initialised = record cold {
  entries =
      record { node = 0x1000; base = 0x2000; length = 0x1000 }
      ∷ record { node = 0x1018; base = 0x10000; length = 0x8000 }
      ∷ [];
  memory = record memory {
    regions =
        record { base = 0x2000; length = 0x1000; kind = 0 }
        ∷ record { base = 0x10000; length = 0x8000; kind = 0 }
        ∷ [];
    max_pages_available = 9;
  };
}
