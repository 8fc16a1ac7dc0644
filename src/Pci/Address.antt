-- ===== src/Pci/Address.antt =====
-- The places of the functions in the configuration space, in src/pci.c.
use bloreos.Base.{
  ℕ, ◌+◌, ◌-◌, ◌*◌, ◌^◌, ◌≤◌, ◌<◌, ◌≡◌, ap, ◌∙◌, bit_or, bit_or_join, ◌<<<◌, u64, arith,
}
use bloreos.Pci.{Window, function_offset}

-- A bus of the window, a device number and a function number.
pub record IsFunction (w : Window) (bus device function : ℕ) : Type 0 where
  pub in_window : w.start ≤ bus
  pub bus_byte : bus < 256
  pub device_bits : device < 32
  pub function_bits : function < 8

function_offset_lem :
    (w : Window) (bus device function : ℕ)
    → IsFunction w bus device function
    → function_offset w bus device function
      ≡ (bus - w.start) * 2 ^ 20 + device * 2 ^ 15 + function * 2 ^ 12
unfolding function_offset
function_offset_lem w bus device function v =
    let b : u64 (u64 (bus + 2 ^ 64 - w.start) * 2 ^ 20) ≡ (bus - w.start) <<< 20 =
      omega (arith, v.in_window, v.bus_byte) in
    let low : device <<< 15 < 2 ^ 20 = omega (arith, v.device_bits) in
    let lower : function <<< 12 < 2 ^ 15 = omega (arith, v.function_bits) in
    let two : bit_or ((bus - w.start) <<< 20) (device <<< 15)
        ≡ ((bus - w.start) * 32 + device) <<< 15 =
      bit_or_join 20 (bus - w.start) (device <<< 15) low ∙ omega arith in
    ap (λ x. bit_or (bit_or x (device <<< 15)) (function <<< 12)) b
    ∙ ap (λ x. bit_or x (function <<< 12)) two
    ∙ bit_or_join 15 ((bus - w.start) * 32 + device) (function <<< 12) lower
    ∙ omega arith

-- Two functions on buses of the window never share a byte of the configuration space: from the
-- distance to the start of the window, the bus, the device, the function and the offset below 4096
-- can be read back.
pub function_offset_unique :
    (w : Window) (b d f o b' d' f' o' : ℕ)
    → IsFunction w b d f
    → IsFunction w b' d' f'
    → o < 4096
    → o' < 4096
    → function_offset w b d f + o ≡ function_offset w b' d' f' + o'
    → (b ≡ b') × (d ≡ d') × (f ≡ f') × (o ≡ o')
function_offset_unique w b d f o b' d' f' o' v v' h h' e =
    let x = function_offset_lem w b d f v in
    let x' = function_offset_lem w b' d' f' v' in
    let b1 = v.in_window in
    let b2 = v'.in_window in
    let d1 = v.device_bits in
    let d2 = v'.device_bits in
    let f1 = v.function_bits in
    let f2 = v'.function_bits in
    (
      omega (arith, x, x', e, b1, b2, d1, d2, f1, f2),
      omega (arith, x, x', e, b1, b2, d1, d2, f1, f2),
      omega (arith, x, x', e, b1, b2, d1, d2, f1, f2),
      omega (arith, x, x', e, b1, b2, d1, d2, f1, f2),
    )
