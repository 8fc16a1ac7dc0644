-- ===== src/Gdt/Decode.antt =====
-- What the processor reads back from an entry.
use bloreos.Base.{
  ℕ, ◌+◌, ◌*◌, ◌/◌, ◌%◌, ◌<◌, ◌^◌, ◌≡◌, refl, true, arith, ◌==◌, ==_iff, bit_and, bit_or,
  bit_and_mask, all_below, all_below_sound, ◌>>>◌,
}
use bloreos.Gdt.{GdtEntry, gdt_entry}

abbrev pub decoded_base : GdtEntry → ℕ
decoded_base e = e.base_low + e.base_middle * 2 ^ 16 + e.base_high * 2 ^ 24

-- The 20 bits of the limit: the upper four share a byte with the flags.
abbrev pub decoded_limit : GdtEntry → ℕ
decoded_limit e = e.limit_low + e.granularity % 16 * 2 ^ 16

abbrev pub decoded_flags : GdtEntry → ℕ
decoded_flags e = e.granularity / 16

gran_table :
    all_below 16 (λ n. all_below 256 (λ g. bit_or n (bit_and g 0xf0) == g / 16 * 16 + n)) ≡ true
unfolding all_below
gran_table = refl

gran_byte : (n g : ℕ) → n < 16 → g < 256 → bit_or n (bit_and g 0xf0) ≡ g / 16 * 16 + n
gran_byte n g hn hg = (==_iff (bit_or n (bit_and g 0xf0)) (g / 16 * 16 + n)).0 (
    all_below_sound 256 (λ g. bit_or n (bit_and g 0xf0) == g / 16 * 16 + n) g
      (all_below_sound 16 (λ n. all_below 256 (λ g. bit_or n (bit_and g 0xf0) == g / 16 * 16 + n)) n
        gran_table hn)
      hg)

-- From the entry for a 32-bit base and limit, a byte of access rights and a byte of flags, the
-- processor reads back the base, the lowest 20 bits of the limit, the access rights and the upper
-- four bits of the flags.
pub gdt_entry_decodes :
    (base limit access gran : ℕ)
    → base < 2 ^ 32
    → gran < 256
    → let e = gdt_entry base limit access gran in
      (decoded_base e ≡ base)
      × (decoded_limit e ≡ limit % 2 ^ 20)
      × (e.access ≡ access)
      × (decoded_flags e ≡ gran / 16)
unfolding gdt_entry
gdt_entry_decodes base limit access gran hb hg =
    rw
      (
        bit_and_mask 16 base,
        bit_and_mask 16 limit,
        bit_and_mask 8 (base >>> 16),
        bit_and_mask 8 (base >>> 24),
        bit_and_mask 4 (limit >>> 16),
        gran_byte (limit / 2 ^ 16 % 16) gran (omega arith) hg,
      )
      (omega arith, omega arith, refl, omega arith)
