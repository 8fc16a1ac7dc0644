-- ===== src/Str/Compare.antt =====
-- strcmp and strlen of src/lib/str.c, on a string that the memory holds.
use bloreos.Base.{
  ℕ, zero, suc, ◌+◌, ◌<◌, ◌≡◌, ◌≢◌, refl, ◌∙◌, Bool, true, false, ◌&&◌, ◌||◌, arith, ◌==◌,
  if◌then◌else◌, Ram, List, [], ◌∷◌, length, subst,
}
use bloreos.Str.{equal, unequal, strcmp, strlen_loop, strlen}

-- The memory holds from address a the characters of the list, none of them zero, and then a zero.
abbrev pub Holds : Ram → ℕ → List ℕ → Type 0
Holds m a [] = m a ≡ 0
Holds m a (c ∷ s) = (m a ≡ c) × (c ≢ 0) × Holds m (a + 1) s

abbrev pub prefix : List ℕ → List ℕ → Bool
prefix [] r = true
prefix (c ∷ s) [] = false
prefix (c ∷ s) (d ∷ r) = (c == d) && prefix s r

-- strcmp calls two strings equal exactly if one of them is a prefix of the other.
pub strcmp_lem :
    (m : Ram) (l : ℕ) (s r : List ℕ)
    → Holds m l s
    → strcmp m l r ≡ (if prefix s r || prefix r s then equal else unequal)
unfolding strcmp
strcmp_lem m l [] [] h = refl
strcmp_lem m l (c ∷ s) [] h = refl
strcmp_lem m l [] (d ∷ r) h = ground (arith, h)
strcmp_lem m l (c ∷ s) (d ∷ r) (e, nonzero, h) = ground (arith, strcmp_lem m (l + 1) s r h)

strlen_loop_lem :
    (left : ℕ) (m : Ram) (a i : ℕ) (s : List ℕ)
    → Holds m (a + i) s
    → length s < left
    → strlen_loop m a left i ≡ i + length s
unfolding strlen_loop
strlen_loop_lem zero m a i s h small = absurd (omega arith)
strlen_loop_lem (suc left) m a i [] h small = ground arith
strlen_loop_lem (suc left) m a i (c ∷ s) (e, nonzero, h) small =
    let next : a + i + 1 ≡ a + (i + 1) = omega arith in
    ground (arith, strlen_loop_lem left m a (i + 1) s (subst (λ x. Holds m x s) next h))

-- strlen counts the characters before the terminator of every string of fewer than 65535 characters.
pub strlen_lem :
    (m : Ram) (a : ℕ) (s : List ℕ) → Holds m a s → length s < 65535 → strlen m a ≡ length s
unfolding strlen
strlen_lem m a s h small =
    let here : a ≡ a + 0 = omega arith in
    let sum : 0 + length s ≡ length s = omega arith in
    strlen_loop_lem 65535 m a 0 s (subst (λ x. Holds m x s) here h) small ∙ sum
