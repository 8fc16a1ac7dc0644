-- ===== src/Queue/Tests.antt =====
-- A queue of three words with one word in it, and what malloc may leave in the lock.
use bloreos.Base.{ℕ, ◌≡◌, Bool, some, [], ◌∷◌, arith}
use bloreos.Atomic.{returns, spins}
use bloreos.Queue.{CQueue, cqueue_create, cqueue_write, cqueue_read}
use bloreos.Queue.Fifo
use bloreos.Queue.Refine.{
  IsValid, contents, cqueue_write_refines, cqueue_read_refines, cqueue_create_stuck,
}

abbrev one_word : CQueue
one_word = record {
  read_i = 2;
  write_i = 0;
  buff = 5 ∷ 6 ∷ 7 ∷ [];
  len = 3;
  num_items = 1;
  lock = 0;
}

one_word-IsValid : IsValid one_word
one_word-IsValid = ground arith

cqueue_write_refines_example :
    (q' : CQueue) × (b : Bool) × (cqueue_write one_word 8 ≡ returns q' b)
    × IsValid q'
    × (q'.len ≡ 3)
    × ((contents q', b) ≡ Fifo.push 3 (contents one_word) 8)
cqueue_write_refines_example = cqueue_write_refines one_word 8 one_word-IsValid

cqueue_read_refines_example :
    (q' : CQueue) × (x : ℕ) × (cqueue_read one_word ≡ returns q' x)
    × IsValid q'
    × (q'.len ≡ 3)
    × (Fifo.pop (contents one_word) ≡ some (contents q', x))
cqueue_read_refines_example = cqueue_read_refines one_word one_word-IsValid (omega arith)

cqueue_create_stuck_example :
    (cqueue_write (cqueue_create (9 ∷ 9 ∷ []) 1 2) 8 ≡ spins)
    × (cqueue_read (cqueue_create (9 ∷ 9 ∷ []) 1 2) ≡ spins)
cqueue_create_stuck_example = cqueue_create_stuck (9 ∷ 9 ∷ []) 1 2 8 (omega arith)
