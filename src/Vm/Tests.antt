-- ===== src/Vm/Tests.antt =====
-- Page tables that map every address, with 36 address bits.
use bloreos.Base.{ℕ, ◌/◌, ◌%◌, ◌^◌, [], ◌∷◌, Ram, arith}
use bloreos.Vm.{walk_page_table}
use bloreos.Vm.Walk.{Agrees, translate, walk_page_table_lem}

-- Every entry is present and points to the frame at 0x7000.
abbrev all_present : Ram
all_present a = 0x7003

abbrev address : ℕ
address = 0x12345678

walk_page_table_lem_example :
    Agrees address
      (translate all_present 0 36 0x1000 (
        address / 2 ^ 39 % 512
        ∷ address / 2 ^ 30 % 512
        ∷ address / 2 ^ 21 % 512
        ∷ address / 2 ^ 12 % 512
        ∷ []))
      (walk_page_table all_present 0 36 0x1000 address)
walk_page_table_lem_example =
    walk_page_table_lem all_present 0 36 0x1000 address (omega arith) (omega arith)
