-- ===== src/Queue/Refine.antt =====
-- A well-formed circular queue behaves as the list of the words that it holds.
use bloreos.Base.{
  Bool-cases, inl, inr, ◌∙◌, ℕ, zero, suc, ◌+◌, ◌-◌, ◌^◌, ◌≤◌, ◌<◌, ◌≡◌, refl, ap, ap₂, ◌≢◌, Bool,
  true, false, some, List, [], ◌∷◌, ◌++◌, arith, leb, ◌==◌, if◌then◌else◌, length, length-set,
  get_or, set, get_or-set_self, get_or-set_ne,
}
use bloreos.Queue.{CQueue, cqueue_create, cqueue_write, cqueue_read, advance}
use bloreos.Queue.Fifo
use bloreos.Atomic.{returns, spins, halts}

-- An index that may have passed the end once.
abbrev wrap : ℕ → ℕ → ℕ
wrap len i = if leb len i then i - len else i

pub record IsValid (q : CQueue) : Type 0 where
  pub fits : q.len ≤ length q.buff
  pub small : q.len < 2 ^ 32
  pub read_in : q.read_i < q.len
  pub items_in : q.num_items ≤ q.len
  pub writes_next : q.write_i ≡ wrap q.len (q.read_i + q.num_items)
  pub unlocked : q.lock ≡ 0

module _ (buff : List ℕ) (len : ℕ) where
  -- the n words from index i on, going round at `len`
  abbrev pub window : ℕ → ℕ → List ℕ
  window i zero = []
  window i (suc n) = get_or buff i 0 ∷ window (if i + 1 == len then 0 else i + 1) n

  length-window : (i n : ℕ) → length (window i n) ≡ n
  length-window i zero = refl
  length-window i (suc n) = ap suc (length-window (if i + 1 == len then 0 else i + 1) n)

  window_pos :
      (i n : ℕ)
      → n ≢ 0
      → window i n ≡ get_or buff i 0 ∷ window (if i + 1 == len then 0 else i + 1) (n - 1)
  window_pos i zero h = absurd (h refl)
  window_pos i (suc n) h = ap (λ k. window i (suc k)) (omega arith)

abbrev pub contents : CQueue → List ℕ
contents q = window q.buff q.len q.read_i q.num_items

pub length-contents : (q : CQueue) → length (contents q) ≡ q.num_items
length-contents q = length-window q.buff q.len q.read_i q.num_items

-- A word stored just past a window extends it.
window-set :
    (buff : List ℕ) (len x n i j : ℕ)
    → len ≤ length buff
    → i < len
    → n < len
    → j ≡ wrap len (i + n)
    → window (set buff j x) len i (suc n) ≡ window buff len i n ++ (x ∷ [])
window-set buff len x zero i j hs hi hn e =
    let e' : j ≡ i = ground arith in rw (e', get_or-set_self buff i x 0 (omega arith))
window-set buff len x (suc n) i j hs hi hn e = ap₂ ◌∷◌ (get_or-set_ne buff x 0 (ground arith)) (
    window-set buff len x n (if i + 1 == len then 0 else i + 1) j hs (ground arith) (omega arith)
      (ground arith))

window_snoc :
    (buff : List ℕ) (len x n i j : ℕ)
    → len ≤ length buff
    → i < len
    → n < len
    → j ≡ wrap len (i + n)
    → window (set buff j x) len i (n + 1) ≡ window buff len i n ++ (x ∷ [])
window_snoc buff len x n i j hs hi hn e =
    let e' : n + 1 ≡ suc n = omega arith in
    ap (window (set buff j x) len i) e' ∙ window-set buff len x n i j hs hi hn e

-- The queue that `cqueue_create` makes in memory of `len` words is well formed and empty, if its
-- lock byte happens to be 0.
pub cqueue_create-IsValid :
    (buff : List ℕ) (lock len : ℕ)
    → 0 < len
    → len < 2 ^ 32
    → length buff ≡ len
    → lock ≡ 0
    → IsValid (cqueue_create buff lock len) × (contents (cqueue_create buff lock len) ≡ [])
unfolding cqueue_create
cqueue_create-IsValid buff lock len pos small e l = ground arith

-- `cqueue_write` on a well-formed queue returns, keeps it well formed and of the same length, and
-- does to its contents, with the same answer, what `push` does to a bounded list.
pub cqueue_write_refines :
    (q : CQueue) (x : ℕ)
    → IsValid q
    → (q' : CQueue) × (b : Bool) × (cqueue_write q x ≡ returns q' b)
      × IsValid q'
      × (q'.len ≡ q.len)
      × ((contents q', b) ≡ Fifo.push q.len (contents q) x)
unfolding cqueue_write Fifo.push
cqueue_write_refines q x v = elim (Bool-cases (q.num_items == q.len)) [
  | inl full ↦ (
    record q { lock = 0 },
    false,
    ground arith,
    ground arith,
    refl,
    ground (arith, length-window q.buff q.len q.read_i q.num_items),
  )
  | inr room ↦ (
    record q {
      buff = set q.buff q.write_i x;
      write_i = advance q.len q.write_i;
      lock = 0;
      num_items = q.num_items + 1;
    },
    true,
    ground arith,
    ground (arith, length-set q.buff q.write_i x),
    refl,
    ground (
      arith,
      length-window q.buff q.len q.read_i q.num_items,
      window_snoc q.buff q.len x q.num_items q.read_i q.write_i,
    ),
  )
]

-- `cqueue_read` on a well-formed queue with at least one item returns the oldest, keeps the queue
-- well formed and of the same length, and leaves it holding the rest.
pub cqueue_read_refines :
    (q : CQueue)
    → IsValid q
    → q.num_items ≢ 0
    → (q' : CQueue) × (x : ℕ) × (cqueue_read q ≡ returns q' x)
      × IsValid q'
      × (q'.len ≡ q.len)
      × (Fifo.pop (contents q) ≡ some (contents q', x))
unfolding cqueue_read Fifo.pop
cqueue_read_refines q v ne = (
  (record q { read_i = advance q.len q.read_i; num_items = q.num_items - 1 }),
  get_or q.buff q.read_i 0,
  ground arith,
  ground arith,
  refl,
  ground (arith, window_pos q.buff q.len q.read_i q.num_items),
)

-- On an empty well-formed queue `cqueue_read` stops the CPU, and does so with the lock still held.
pub cqueue_read-empty :
    (q : CQueue) → IsValid q → contents q ≡ [] → cqueue_read q ≡ halts (record q { lock = 1 })
unfolding cqueue_read
cqueue_read-empty q v e =
    ground (arith, length-window q.buff q.len q.read_i q.num_items, ap length e)

-- A queue created in memory whose lock byte is not 0 can never be used: every write and every read
-- of it waits for the lock for ever.
pub cqueue_create_stuck :
    (buff : List ℕ) (lock len x : ℕ)
    → lock ≢ 0
    → (cqueue_write (cqueue_create buff lock len) x ≡ spins)
      × (cqueue_read (cqueue_create buff lock len) ≡ spins)
unfolding cqueue_create cqueue_write cqueue_read
cqueue_create_stuck buff lock len x h = ground arith
