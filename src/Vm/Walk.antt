-- ===== src/Vm/Walk.antt =====
-- The walk, as a translation that has no bit operations in it.
use bloreos.Base.{
  ℕ, zero, suc, ◌+◌, ◌-◌, ◌*◌, ◌/◌, ◌%◌, ◌≤◌, ◌<◌, ◌^◌, ◌≡◌, refl, ap, sym, subst, ◌∙◌, Bool,
  Bool-cases, inl, inr, true, ltb, not, List, [], ◌∷◌, arith, ◌==◌, if◌then◌else◌, Ram, bit_and,
  bit_or, bit_and_mask, and_4096, bit_or_join, ◌>>>◌, u64,
}
use Prim.Native.Nat.{◌∣◌}
use native.Mathlib.Nat.{
  pow-le-pow_right, pow-suc, mod-eq_of_lt, mod-mod_of_dvd, dvd-mul_right, dvd-mul_right_of_dvd,
}
use bloreos.Vm.{
  pml4_index, pdpt_index, pd_index, pt_index, page_offset, present, address_mask, table_entry,
  walk_page_table,
}

-- The five parts of a 48-bit address that the walk uses make up the address.
pub index_parts :
    (va : ℕ)
    → va < 2 ^ 48
    → va
      ≡ (((pml4_index va * 512 + pdpt_index va) * 512 + pd_index va) * 512 + pt_index va) * 4096
        + page_offset va
index_parts va h = omega (
  arith,
  bit_and_mask 9 (va >>> 39),
  bit_and_mask 9 (va >>> 30),
  bit_and_mask 9 (va >>> 21),
  bit_and_mask 9 (va >>> 12),
  bit_and_mask 12 va,
)

-- The address that a table entry holds: its bits 12 to 51.
abbrev pub frame : ℕ → ℕ
frame entry = entry % 2 ^ 52 / 4096 * 4096

-- An entry whose bits from bit 12 + k to bit 51, which a CPU with k address bits reserves, are clear.
abbrev pub in_reach : ℕ → ℕ → Bool
in_reach k entry = ltb (entry % 2 ^ 52 / 4096) (2 ^ k)

address_mask_lem : (k : ℕ) → k ≤ 40 → address_mask k ≡ (2 ^ k - 1) * 4096
address_mask_lem k h =
    let fits : 2 ^ k ≤ 2 ^ 40 = pow-le-pow_right {n = 2} (omega arith) h in omega arith

power_divides : (k d : ℕ) → 2 ^ k ∣ 2 ^ (k + d)
power_divides k zero =
    let e : k + 0 ≡ k = omega arith in
    rw e (subst (λ n. 2 ^ k ∣ n) (omega arith) (dvd-mul_right (2 ^ k) 1))
power_divides k (suc d) =
    let e : k + suc d ≡ suc (k + d) = omega arith in
    rw (e, pow-suc 2 (k + d)) (dvd-mul_right_of_dvd (2 ^ k) (power_divides k d) 2)

low_bits :
    (k entry : ℕ) → k ≤ 40 → in_reach k entry ≡ true → entry / 4096 % 2 ^ k * 4096 ≡ frame entry
low_bits k entry h low =
    let inner : entry / 4096 % 2 ^ 40 ≡ entry % 2 ^ 52 / 4096 = omega arith in
    let below : entry % 2 ^ 52 / 4096 < 2 ^ k = ground (arith, low) in
    let all : k + (40 - k) ≡ 40 = omega (arith, h) in
    let divides : 2 ^ k ∣ 2 ^ 40 = subst (λ n. 2 ^ k ∣ 2 ^ n) all (power_divides k (40 - k)) in
    let twice : entry / 4096 % 2 ^ 40 % 2 ^ k ≡ entry / 4096 % 2 ^ k =
      mod-mod_of_dvd (2 ^ k) (entry / 4096) divides in
    ap (λ n. n * 4096) (sym twice ∙ ap (λ n. n % 2 ^ k) inner ∙ mod-eq_of_lt below)

masked :
    (k entry : ℕ) → k ≤ 40 → in_reach k entry ≡ true → bit_and entry (address_mask k) ≡ frame entry
masked k entry h low =
    rw (address_mask_lem k h, and_4096 entry (2 ^ k - 1), bit_and_mask k (entry / 4096))
      (low_bits k entry h low)

present_lem : (entry : ℕ) → present entry ≡ (entry % 2 == 1)
present_lem entry = ground (arith, bit_and_mask 1 entry)

-- What the tables make of an address: the last entry, an entry on the way that is not present, or one
-- with a reserved bit, at which the CPU faults.
pub data Translated : Type 0 where
  maps : ℕ → Translated
  missing reserved : Translated

module _ (read : Ram) (offset k : ℕ) where
  -- Follow the indices from one table to the next.
  pub translate : ℕ → List ℕ → Translated
  translate entry [] = maps entry
  translate entry (i ∷ is) =
      let next = read (u64 (frame entry + offset + 8 * i)) in
      let rest = translate next is in
      if next % 2 == 1 then (if in_reach k next then rest else reserved) else missing

-- The walk gives the frame of the last entry with the lowest twelve bits of the address, or 0.
abbrev pub Agrees : ℕ → Translated → ℕ → Type 0
Agrees va (maps pte) result = result ≡ frame pte + va % 4096
Agrees va missing result = result ≡ 0
Agrees va reserved result = Unit {0}

offset_added :
    (k pte va : ℕ)
    → k ≤ 40
    → in_reach k pte ≡ true
    → bit_or (bit_and pte (address_mask k)) (page_offset va) ≡ frame pte + va % 4096
offset_added k pte va h low =
    rw (masked k pte h low, bit_and_mask 12 va)
      (bit_or_join 12 (pte % 2 ^ 52 / 4096) (va % 4096) (omega arith))

table_entry_lem :
    (read : Ram) (offset k entry i : ℕ)
    → k ≤ 40
    → in_reach k entry ≡ true
    → table_entry read offset k entry i ≡ read (u64 (frame entry + offset + 8 * i))
unfolding table_entry
table_entry_lem read offset k entry i h low = rw (masked k entry h low) refl

-- One level of the walk, whose table has the entry `next`.
level :
    (k va next result : ℕ) (rest : Translated)
    → (in_reach k next ≡ true → Agrees va rest result)
    → Agrees va
        (if next % 2 == 1 then (if in_reach k next then rest else reserved) else missing)
        (if not (present next) then 0 else result)
level k va next result rest below = elim (Bool-cases (next % 2 == 1)) [
  | inl there ↦
      rw (present_lem next, there)
        (elim (Bool-cases (in_reach k next)) [
          | inl low ↦ rw low (below low)
          | inr high ↦ rw high tt
        ])
  | inr gone ↦ rw (present_lem next, gone) refl
]

module _ (read : Ram) (offset k va : ℕ) (h : k ≤ 40) where
  table_level :
      (entry i : ℕ) (is : List ℕ) (result : ℕ → ℕ)
      → in_reach k entry ≡ true
      → ((next : ℕ)
          → in_reach k next ≡ true
          → Agrees va (translate read offset k next is) (result next))
      → Agrees va (translate read offset k entry (i ∷ is)) (
          let next = table_entry read offset k entry i in
          if not (present next) then 0 else result next)
  unfolding translate
  table_level entry i is result low below =
      let next = read (u64 (frame entry + offset + 8 * i)) in
      rw (table_entry_lem read offset k entry i h low)
        (level k va next (result next) (translate read offset k next is) (below next))

  abbrev last : ℕ → ℕ
  last pte = bit_or (bit_and pte (address_mask k)) (page_offset va)

  abbrev from_pd : ℕ → ℕ
  from_pd pde =
      let pte = table_entry read offset k pde (pt_index va) in
      if not (present pte) then 0 else last pte

  abbrev from_pdpt : ℕ → ℕ
  from_pdpt pdpte =
      let pde = table_entry read offset k pdpte (pd_index va) in
      if not (present pde) then 0 else from_pd pde

  abbrev from_pml4 : ℕ → ℕ
  from_pml4 pml4e =
      let pdpte = table_entry read offset k pml4e (pdpt_index va) in
      if not (present pdpte) then 0 else from_pdpt pdpte

  walk_by_index :
      (cr3 : ℕ)
      → in_reach k cr3 ≡ true
      → Agrees va
          (translate read offset k cr3
            (pml4_index va ∷ pdpt_index va ∷ pd_index va ∷ pt_index va ∷ []))
          (walk_page_table read offset k cr3 va)
  unfolding walk_page_table translate
  walk_by_index cr3 low =
      table_level cr3 (pml4_index va) (pdpt_index va ∷ pd_index va ∷ pt_index va ∷ []) from_pml4 low
        (λ e1 low1.
          table_level e1 (pdpt_index va) (pd_index va ∷ pt_index va ∷ []) from_pdpt low1 (λ e2 low2.
            table_level e2 (pd_index va) (pt_index va ∷ []) from_pd low2 (λ e3 low3.
              table_level e3 (pt_index va) [] last low3 (λ e4 low4. offset_added k e4 va h low4))))

-- With at most 40 address bits, and bits 12 + k to 51 of CR3 clear, the walk follows bits 12 to 51 of
-- each entry to the next table, with nine bits of the address for the index in each: it gives bits 12 to
-- 51 of the last entry with the lowest twelve bits of the address added, and 0 if an entry on the way is
-- not present. Nothing is said of a walk that meets an entry with one of its bits 12 + k to 51 set,
-- which the CPU reserves; with 40 address bits there are none such.
pub walk_page_table_lem :
    (read : Ram) (offset k cr3 va : ℕ)
    → k ≤ 40
    → cr3 % 2 ^ 52 / 2 ^ 12 < 2 ^ k
    → Agrees va
        (translate read offset k cr3
          (va / 2 ^ 39 % 512 ∷ va / 2 ^ 30 % 512 ∷ va / 2 ^ 21 % 512 ∷ va / 2 ^ 12 % 512 ∷ []))
        (walk_page_table read offset k cr3 va)
walk_page_table_lem read offset k cr3 va h low =
    subst (λ is. Agrees va (translate read offset k cr3 is) (walk_page_table read offset k cr3 va))
      (simp index refl) (walk_by_index read offset k va h cr3 (ground (arith, low)))
  where
    index : (x : ℕ) → bit_and x 0x1ff ≡ x % 512
    index x = bit_and_mask 9 x
