-- ===== src/Str/Padding.antt =====
-- The zeros that a hexadecimal conversion adds, in src/lib/str.c.
use bloreos.Base.{ℕ, zero, suc, ◌+◌, ◌≤◌, ◌<◌, ◌≡◌, refl, ap, ◌∙◌, arith, Ram, update, update_self}
use bloreos.Str.Numbers.{pad}
use bloreos.Str.Digits.{backwards}

module _ (base : ℕ) where
  backwards_zeros :
      (k : ℕ) (m : Ram) (a : ℕ) → ((j : ℕ) → j < k → m (a + j) ≡ b'0') → backwards base m a k ≡ 0
  backwards_zeros zero m a z = refl
  backwards_zeros (suc k) m a z =
      let here : a ≡ a + 0 = omega arith in
      let first : m a ≡ b'0' = ap m here ∙ z 0 (omega arith) in
      let rest : backwards base m (a + 1) k ≡ 0 = backwards_zeros k m (a + 1) (λ j h.
        let next : a + 1 + j ≡ a + (j + 1) = omega arith in ap m next ∙ z (j + 1) (omega arith)) in
      rw (first, rest) (omega arith)

  pub backwards_padded :
      (n k : ℕ) (m : Ram) (a : ℕ)
      → ((j : ℕ) → n ≤ j → j < n + k → m (a + j) ≡ b'0')
      → backwards base m a (n + k) ≡ backwards base m a n
  backwards_padded zero k m a z =
      let e : zero + k ≡ k = omega arith in
      rw e (backwards_zeros k m a (λ j h. z j (omega arith) (omega arith)))
  backwards_padded (suc n) k m a z =
      let e : suc n + k ≡ suc (n + k) = omega arith in
      rw
        (
          e,
          backwards_padded n k m (a + 1) (λ j low high.
              let next : a + 1 + j ≡ a + (j + 1) = omega arith in
              ap m next ∙ z (j + 1) (omega arith) (omega arith)),
        )
        refl

  pub backwards_same :
      (n : ℕ) (m m' : Ram) (a : ℕ)
      → ((j : ℕ) → j < n → m' (a + j) ≡ m (a + j))
      → backwards base m' a n ≡ backwards base m a n
  backwards_same zero m m' a e = refl
  backwards_same (suc n) m m' a e =
      let here : a ≡ a + 0 = omega arith in
      let first : m' a ≡ m a = ap m' here ∙ e 0 (omega arith) ∙ ap m (omega arith) in
      let rest : backwards base m' (a + 1) n ≡ backwards base m (a + 1) n =
        backwards_same n m m' (a + 1) (λ j h.
          let next : a + 1 + j ≡ a + (j + 1) = omega arith in
          ap m' next ∙ e (j + 1) (omega arith) ∙ ap m (omega arith)) in
      rw (first, rest) refl

  -- pad keeps what is there, and adds the character 0 up to sixteen.
  pub pad_keeps : (fuel : ℕ) (m : Ram) (str i x : ℕ) → x < str + i → (pad fuel m str i).mem x ≡ m x
  unfolding pad
  pad_keeps zero m str i x h = refl
  pad_keeps (suc fuel) m str i x h =
      ground (arith, pad_keeps fuel (update m (str + i) b'0') str (i + 1) x)

  pub pad_zeros :
      (fuel : ℕ) (m : Ram) (str i j : ℕ)
      → i ≤ j
      → j < (pad fuel m str i).count
      → (pad fuel m str i).mem (str + j) ≡ b'0'
  unfolding pad
  pad_zeros zero m str i j low high = absurd (omega arith)
  pad_zeros (suc fuel) m str i j low high =
      let written : update m (str + i) b'0' (str + i) ≡ b'0' = update_self m (str + i) b'0' in
      grind (
        arith,
        pad_zeros fuel (update m (str + i) b'0') str (i + 1) j,
        pad_keeps fuel (update m (str + i) b'0') str (i + 1) (str + i),
        written,
      )

  pub pad_grows : (fuel : ℕ) (m : Ram) (str i : ℕ) → i ≤ (pad fuel m str i).count
  unfolding pad
  pad_grows zero m str i = omega arith
  pad_grows (suc fuel) m str i =
      ground (arith, pad_grows fuel (update m (str + i) b'0') str (i + 1))

  pub pad_room : (fuel : ℕ) (m : Ram) (str i : ℕ) → (pad fuel m str i).count ≤ i + fuel
  unfolding pad
  pad_room zero m str i = omega arith
  pad_room (suc fuel) m str i = ground (arith, pad_room fuel (update m (str + i) b'0') str (i + 1))
