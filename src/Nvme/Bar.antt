-- ===== src/Nvme/Bar.antt =====
-- The probe of the register in src/drivers/nvme.c.
use bloreos.Base.{
  ℕ, ◌+◌, ◌-◌, ◌*◌, ◌/◌, ◌%◌, ◌^◌, ◌≤◌, ◌<◌, ◌≡◌, refl, ap, sym, ◌∙◌, ◌==◌, Ram, arith, u32, u64,
  put_bytes, bit_and, and_digit, bit_and_mask, bit_or_join_low, all_below, all_below_sound, ltb,
  leb, ◌&&◌, ◌||◌, fun_ext,
}
use bloreos.Acpi.{word32}
use bloreos.Pci.{Window, PciDevice, pci_device_read, pci_device_write, pci_mm_read, config_address}
use bloreos.Nvme.{write_bar, bar_length, bar_address, size_bar, pci_reg4_offset}

and_high : (a : ℕ) → a < 2 ^ 32 → bit_and a 0xfffffff0 ≡ a / 16 * 16
and_high a small = omega (
  arith,
  and_digit a 0xfffffff0,
  and_digit (a / 2) 0x7ffffff8,
  and_digit (a / 2 / 2) 0x3ffffffc,
  and_digit (a / 2 / 2 / 2) 0x1ffffffe,
  bit_and_mask 28 (a / 2 / 2 / 2 / 2),
)

-- The four bytes at an address that were stored there.
word32_put : (m : Ram) (a v : ℕ) → v < 2 ^ 32 → word32 (put_bytes 4 m a v) a ≡ v
unfolding put_bytes
word32_put m a v small = ground arith

-- Storing the word of a memory of bytes back where another one was stored.
put_word32 :
    (m : Ram) (a v x : ℕ)
    → ((y : ℕ) → m y < 256)
    → put_bytes 4 (put_bytes 4 m a v) a (word32 m a) x ≡ m x
unfolding put_bytes
put_word32 m a v x bytes =
    let w = word32 m a in
    let b0 : w % 2 ^ 8 ≡ m a = omega (arith, bytes a) in
    let b1 : w / 2 ^ 8 % 2 ^ 8 ≡ m (a + 1) = omega (arith, bytes a, bytes (a + 1)) in
    let b2 : w / 2 ^ 8 / 2 ^ 8 % 2 ^ 8 ≡ m (a + 2) =
      omega (arith, bytes a, bytes (a + 1), bytes (a + 2)) in
    let b3 : w / 2 ^ 8 / 2 ^ 8 / 2 ^ 8 % 2 ^ 8 ≡ m (a + 2 + 1) =
      omega (arith, bytes a, bytes (a + 1), bytes (a + 2), bytes (a + 2 + 1)) in
    let e2 : a + 1 + 1 ≡ a + 2 = omega arith in rw (b0, b1, b2, b3, e2) (ground arith)

-- A controller whose register decodes `size` bytes: the bits below the size read as its kind.
abbrev pub decoding : ℕ → ℕ → ℕ → ℕ
decoding size kind v = v / size * size + kind

-- A power of two from 16 to 2^31: a multiple of 16, and what the register reads after all ones.
sizes :
    (k : ℕ)
    → 4 ≤ k
    → k < 32
    → (2 ^ k / 16 * 16 ≡ 2 ^ k)
      × (0xffffffff / 2 ^ k * 2 ^ k + 2 ^ k ≡ 2 ^ 32)
      × (16 ≤ 2 ^ k)
      × (2 ^ k < 2 ^ 32)
unfolding all_below
sizes k small large =
    let table =
      all_below_sound 32
        (λ k.
          ltb k 4
          || (2 ^ k / 16 * 16 == 2 ^ k)
            && (0xffffffff / 2 ^ k * 2 ^ k + 2 ^ k == 2 ^ 32)
            && leb 16 (2 ^ k)
            && ltb (2 ^ k) (2 ^ 32))
        k refl large in
    (ground (arith, table), ground (arith, table), ground (arith, table), ground (arith, table))

-- What the register holds after a write of a base of its own size.
restored_lem : (base S kind : ℕ) → kind < S → decoding S kind (base * S + kind) ≡ base * S + kind
restored_lem base S kind h = let q : (base * S + kind) / S ≡ base = grind arith in rw q refl

word32_small : (m : Ram) (a : ℕ) → ((y : ℕ) → m y < 256) → word32 m a < 2 ^ 32
word32_small m a bytes = omega (arith, bytes a, bytes (a + 1), bytes (a + 2), bytes (a + 2 + 1))

length_lem :
    (S kind : ℕ)
    → S / 16 * 16 ≡ S
    → S < 2 ^ 32
    → 16 ≤ S
    → kind < 16
    → bar_length (2 ^ 32 - S + kind) ≡ S
unfolding bar_length
length_lem S kind multiple most least small =
    omega (arith, and_high (2 ^ 32 - S + kind) (omega arith), multiple)

assoc : (a b : ℕ) → a * (b * 16) ≡ a * b * 16
assoc a b = grind arith

address_lem :
    (base S kind hi : ℕ)
    → S / 16 * 16 ≡ S
    → kind < 16
    → base * S + kind < 2 ^ 32
    → hi < 2 ^ 32
    → bar_address (base * S + kind) hi ≡ hi * 2 ^ 32 + base * S
unfolding bar_address
address_lem base S kind hi multiple small low high =
    let product : base * S ≡ base * (S / 16) * 16 =
      ap (λ n. base * n) (sym multiple) ∙ assoc base (S / 16) in
    let masked : bit_and (base * S + kind) 0xfffffff0 ≡ base * S =
      omega (arith, and_high (base * S + kind) low, product) in
    let upper : u64 (hi * 2 ^ 32) ≡ hi * 2 ^ 32 = omega (arith, high) in
    rw (masked, upper) (bit_or_join_low 32 hi (base * S) (omega (arith, low)))

-- On a memory of bytes, for a register at `bar` that decodes 2^k bytes, 4 ≤ k < 32, and holds the
-- base of a region of that size, nvme_init finds the size and the 64-bit base, and leaves the
-- configuration space as it was.
pub size_bar_lem :
    (w : Window) (dev : PciDevice) (m : Ram) (k base kind x : ℕ)
    → let bar = config_address w dev.bus dev.device dev.function pci_reg4_offset in
      let high = config_address w dev.bus dev.device dev.function (pci_reg4_offset + 4) in
      let c = size_bar (decoding (2 ^ k) kind) w dev m in
      ((y : ℕ) → m y < 256)
      → 4 ≤ k
      → k < 32
      → kind < 16
      → word32 m bar ≡ base * 2 ^ k + kind
      → (c.length ≡ 2 ^ k)
        × (c.base_addr ≡ word32 m high * 2 ^ 32 + base * 2 ^ k)
        × (c.config x ≡ m x)
unfolding size_bar write_bar pci_device_read pci_device_write pci_mm_read
size_bar_lem w dev m k base kind x bytes small large kinds held =
    let S = 2 ^ k in
    let (multiple, ones, least, most) = sizes k small large in
    let bar = config_address w dev.bus dev.device dev.function pci_reg4_offset in
    let high = config_address w dev.bus dev.device dev.function (pci_reg4_offset + 4) in
    let low : base * S + kind < 2 ^ 32 = omega (arith, word32_small m bar bytes, held) in
    let probe : decoding S kind (u32 0xffffffff) ≡ 2 ^ 32 - S + kind = omega (arith, ones) in
    let P = 2 ^ 32 - S + kind in
    let bound : P < 2 ^ 32 = omega (arith, least, most) in
    let read = word32_put m bar P bound in
    let whole : u32 (base * S + kind) ≡ base * S + kind = omega (arith, low) in
    let again = restored_lem base S kind (omega (arith, least)) in
    let config : put_bytes 4 (put_bytes 4 m bar P) bar (base * S + kind) ≡ m = fun_ext (λ y.
      ap (λ v. put_bytes 4 (put_bytes 4 m bar P) bar v y) (sym held)
      ∙ put_word32 m bar P y bytes) in
    (
      rw (probe, read) (length_lem S kind multiple most least kinds),
      rw (probe, held, whole, again, config)
          (address_lem base S kind (word32 m high) multiple kinds low (word32_small m high bytes)),
      rw (probe, held, whole, again, config) refl,
    )
