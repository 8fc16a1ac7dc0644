-- ===== src/Str/Reverse.antt =====
-- reverse turns a stretch of memory round.
use bloreos.Base.{
  ℕ, zero, suc, ◌+◌, ◌-◌, ◌*◌, ◌<◌, ◌^◌, ◌≡◌, Bool, ◌&&◌, arith, ltb, leb, ◌==◌, if◌then◌else◌,
  Bool-cases, inl, inr, ◌∙◌, Ram, update, u64,
}
use bloreos.Str.Numbers.{reverse_loop, reverse}

abbrev between : ℕ → ℕ → ℕ → Bool
between lo hi x = leb lo x && leb x hi

abbrev swapped : Ram → ℕ → ℕ → Ram
swapped m lo hi = update (update m lo (m hi)) hi (m lo)

-- One swap, and the rest turned round between the two.
one_swap :
    (m : Ram) (lo hi x : ℕ)
    → lo < hi
    → (if between (lo + 1) (hi - 1) x
        then swapped m lo hi (lo + 1 + (hi - 1) - x)
        else swapped m lo hi x)
      ≡ (if between lo hi x then m (lo + hi - x) else m x)
one_swap m lo hi x h = elim (Bool-cases (x == lo)) [
  | inl e ↦ ground arith
  | inr n ↦ elim (Bool-cases (x == hi)) [ inl e ↦ ground arith | inr k ↦ ground arith ]
]

reverse_loop_lem :
    (fuel : ℕ) (m : Ram) (str start end lo hi x : ℕ)
    → end < start + 2 * fuel
    → lo ≡ str + start
    → hi ≡ str + end
    → reverse_loop fuel m str start end x ≡ (if between lo hi x then m (lo + hi - x) else m x)
unfolding reverse_loop
reverse_loop_lem zero m str start end lo hi x f el eh = ground arith
reverse_loop_lem (suc fuel) m str start end lo hi x f el eh = elim (Bool-cases (ltb start end)) [
  | inl more ↦
      rw (more, ← el, ← eh)
        (reverse_loop_lem fuel (swapped m lo hi) str (start + 1) (end - 1) (lo + 1) (hi - 1) x
            (ground arith) (ground arith) (ground arith)
          ∙ one_swap m lo hi x (ground arith))
  | inr done ↦ rw done (ground arith)
]

-- reverse leaves the bytes of the n from str in the opposite order, and every other byte alone.
pub reverse_lem :
    (m : Ram) (str n x : ℕ)
    → 0 < n
    → n < 2 ^ 64
    → reverse m str n x
      ≡ (if leb str x && ltb x (str + n) then m (str + (str + n - 1) - x) else m x)
unfolding reverse
reverse_lem m str n x pos small =
    let e : u64 (n + 2 ^ 64 - 1) ≡ n - 1 = omega arith in
    rw
      (
        e,
        reverse_loop_lem n m str 0 (n - 1) str (str + n - 1) x (omega arith) (omega arith)
            (omega arith),
      )
      (ground arith)
