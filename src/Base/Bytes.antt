-- ===== src/Base/Bytes.antt =====
-- Memory as a map from addresses (or array indices) to values, and an update of one place.
use Prim.Native.Nat.{ℕ, zero, suc, ◌+◌, ◌*◌, ◌/◌, ◌%◌, ◌^◌}
use mathlib.Core.Path.{◌≡◌}
use mathlib.Core.Logic.{◌≢◌}
use native.Mathlib.Omega.{arith}
use bloreos.Base.Tests.{◌==◌, if◌then◌else◌}

abbrev pub Ram : Type 0
Ram = ℕ → ℕ

-- m[a] = v
abbrev pub update {ℓ} : {A : Type ℓ} → (ℕ → A) → ℕ → A → ℕ → A
update m a v x = if x == a then v else m x

pub update_self {ℓ} : {A : Type ℓ} (m : ℕ → A) (a : ℕ) (v : A) → update m a v a ≡ v
update_self m a v = ground arith

pub update_ne {ℓ} : {A : Type ℓ} (m : ℕ → A) (a x : ℕ) (v : A) → x ≢ a → update m a v x ≡ m x
update_ne m a x v h = ground arith

-- The lowest `size` bytes of a value, stored from the address on, the lowest first.
unfoldable pub put_bytes : ℕ → Ram → ℕ → ℕ → Ram
put_bytes zero m a v = m
put_bytes (suc size) m a v = put_bytes size (update m a (v % 2 ^ 8)) (a + 1) (v / 2 ^ 8)

-- The number that n bytes from the address on spell, the lowest first.
unfoldable pub get_bytes : ℕ → Ram → ℕ → ℕ
get_bytes zero m a = 0
get_bytes (suc size) m a = m a + 2 ^ 8 * get_bytes size m (a + 1)
