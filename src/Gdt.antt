-- ===== src/Gdt.antt =====
-- src/gdt.c: the entries of the global descriptor table, and loading them.
pub mod Decode
pub mod Reload
use bloreos.Base.{
  ℕ, ◌+◌, ◌-◌, ◌*◌, ◌^◌, ◌==◌, if◌then◌else◌, update, bit_and, bit_or, ◌>>>◌, u8, u16,
}

-- `struct gdt_entry`
pub record GdtEntry : Type 0 where
  pub limit_low : ℕ
  pub base_low : ℕ
  pub base_middle : ℕ
  pub access : ℕ
  pub granularity : ℕ
  pub base_high : ℕ

abbrev pub blank : GdtEntry
blank = record {
  limit_low = 0;
  base_low = 0;
  base_middle = 0;
  access = 0;
  granularity = 0;
  base_high = 0;
}

-- The entry that set_gdt_entry stores.
unfoldable pub gdt_entry : ℕ → ℕ → ℕ → ℕ → GdtEntry
gdt_entry base limit access gran = record {
  limit_low = u16 (bit_and limit 0xffff);
  base_low = u16 (bit_and base 0xffff);
  base_middle = u8 (bit_and (base >>> 16) 0xff);
  access = access;
  granularity = u8 (bit_or (bit_and (limit >>> 16) 0x0f) (bit_and gran 0xf0));
  base_high = u8 (bit_and (base >>> 24) 0xff);
}

unfoldable pub set_gdt_entry : (ℕ → GdtEntry) → ℕ → ℕ → ℕ → ℕ → ℕ → ℕ → GdtEntry
unfolding gdt_entry
set_gdt_entry gdt num base limit access gran = update gdt num (gdt_entry base limit access gran)

-- SEGMENT_PRESENT | DESCRIPTOR_PRIVILEGE0 | DESCRIPTOR_TYPE_CODE | SEGMENT_EXECUTABLE | SEGMENT_READABLE
abbrev pub code_access : ℕ
code_access = bit_or 0x80 (bit_or 0x00 (bit_or 0x10 (bit_or 0x08 0x02)))

-- SEGMENT_PRESENT | DESCRIPTOR_PRIVILEGE0 | DESCRIPTOR_TYPE_DATA | SEGMENT_WRITABLE
abbrev pub data_access : ℕ
data_access = bit_or 0x80 (bit_or 0x00 (bit_or 0x10 0x02))

-- The three calls of `init_gdt`; the table's limit is in bytes, less one.
unfoldable pub init_gdt : (ℕ → GdtEntry) → ℕ → GdtEntry
unfolding set_gdt_entry
init_gdt gdt =
    set_gdt_entry (set_gdt_entry (set_gdt_entry gdt 0 0 0 0 0) 1 0 0xffff_ffff code_access 0x20) 2 0
      0xffff_ffff data_access (bit_or 0x00 0x00)

abbrev pub gdt_limit : ℕ
gdt_limit = 8 * 3 - 1
