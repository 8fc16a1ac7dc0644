-- ===== src/Queue/Fifo.antt =====
-- What a client may expect of the circular queue: a list of at most `cap` words, oldest first.
use bloreos.Base.{
  ℕ, Bool, true, false, Option, none, some, List, [], ◌∷◌, ◌++◌, ◌==◌, if◌then◌else◌, length,
}

unfoldable pub push : ℕ → List ℕ → ℕ → List ℕ × Bool
push cap q x = if length q == cap then (q, false) else (q ++ (x ∷ []), true)

-- none: there is nothing to read
unfoldable pub pop : List ℕ → Option (List ℕ × ℕ)
pop [] = none
pop (x ∷ q) = some (q, x)
