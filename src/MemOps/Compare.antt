-- ===== src/MemOps/Compare.antt =====
-- memcmp of src/mem.c decides whether two regions hold the same bytes, and orders them by the first
-- byte in which they differ.
use bloreos.Base.{ℕ, zero, suc, ◌+◌, ◌<◌, ◌≡◌, arith, ltb, ◌==◌, Bool-cases, inl, inr, Ram}
use bloreos.MemOps.{Sign, minus_one, none_differ, plus_one, memcmp_loop, memcmp}

-- The first k bytes of the two regions agree.
abbrev pub Agree : Ram → ℕ → ℕ → ℕ → Type 0
Agree m s1 s2 k = (j : ℕ) → j < k → m (s1 + j) ≡ m (s2 + j)

-- What each result says of the two regions of n bytes.
abbrev pub Compared : Ram → ℕ → ℕ → ℕ → Sign → Type 0
Compared m s1 s2 n minus_one = (k : ℕ) × (k < n) × Agree m s1 s2 k × (m (s1 + k) < m (s2 + k))
Compared m s1 s2 n none_differ = Agree m s1 s2 n
Compared m s1 s2 n plus_one = (k : ℕ) × (k < n) × Agree m s1 s2 k × (m (s2 + k) < m (s1 + k))

one_more_equal :
    (m : Ram) (s1 s2 k : ℕ) → Agree m s1 s2 k → m (s1 + k) ≡ m (s2 + k) → Agree m s1 s2 (k + 1)
one_more_equal m s1 s2 k before here j h = grind (arith, before j)

memcmp_loop-Compared :
    (left i n : ℕ) (m : Ram) (s1 s2 : ℕ)
    → i + left ≡ n
    → Agree m s1 s2 i
    → Compared m s1 s2 n (memcmp_loop m s1 s2 left i)
unfolding memcmp_loop
memcmp_loop-Compared zero i n m s1 s2 e before = λ j h. before j (omega arith)
memcmp_loop-Compared (suc left) i n m s1 s2 e before =
    elim (Bool-cases (m (s1 + i) == m (s2 + i))) [
      | inl same ↦ rw same (
          memcmp_loop-Compared left (i + 1) n m s1 s2 (omega arith)
            (one_more_equal m s1 s2 i before (ground arith)))
      | inr differ ↦ elim (Bool-cases (ltb (m (s1 + i)) (m (s2 + i)))) [
        | inl less ↦ rw (differ, less) (i, omega arith, before, ground arith)
        | inr more ↦ rw (differ, more) (i, omega arith, before, ground arith)
      ]
    ]

-- memcmp returns 0 exactly as the two regions of n bytes agree, -1 where at the first byte in which
-- they differ the first region has the smaller one, and 1 where it has the greater one.
pub memcmp-Compared : (m : Ram) (s1 s2 n : ℕ) → Compared m s1 s2 n (memcmp m s1 s2 n)
unfolding memcmp
memcmp-Compared m s1 s2 n =
    memcmp_loop-Compared n 0 n m s1 s2 (omega arith) (λ j h. absurd (omega arith))
