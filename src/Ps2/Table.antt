-- ===== src/Ps2/Table.antt =====
-- The table of scan codes that ps2_init leaves.
use bloreos.Base.{
  ℕ, zero, suc, ◌+◌, ◌<◌, ◌≡◌, ◌≢◌, refl, ◌∙◌, Bool, true, false, ◌&&◌, ◌||◌, not, List, [], ◌∷◌,
  length, Option, some, none, ◌==◌, update, update_self, update_ne, arith, all_below,
  all_below_sound, get_or,
}
use bloreos.Ps2.Keys.{KeyEvent, key_map, KeyTable, is_set, register_keys}

-- No key of the list has the scan code c.
abbrev fresh : ℕ → List KeyEvent → Bool
fresh c [] = true
fresh c (k ∷ ks) = not (c == k.scan_code) && fresh c ks

abbrev pub distinct : List KeyEvent → Bool
distinct [] = true
distinct (k ∷ ks) = fresh k.scan_code ks && distinct ks

fresh_kept :
    (ks : List KeyEvent) (s : KeyTable) (c : ℕ)
    → fresh c ks ≡ true
    → (register_keys ks s).scancode_map c ≡ s.scancode_map c
unfolding register_keys
fresh_kept [] s c f = refl
fresh_kept (k ∷ ks) s c f =
    fresh_kept ks _ c (ground (arith, f))
    ∙ update_ne s.scancode_map k.scan_code c (some k) (ground (arith, f))

found :
    (ks : List KeyEvent) (s : KeyTable) (i : ℕ) (d : KeyEvent)
    → distinct ks ≡ true
    → i < length ks
    → (register_keys ks s).scancode_map (get_or ks i d).scan_code ≡ some (get_or ks i d)
unfolding register_keys
found [] s i d e h = absurd (omega arith)
found (k ∷ ks) s zero d e h =
    fresh_kept ks _ k.scan_code (ground (arith, e))
    ∙ update_self s.scancode_map k.scan_code (some k)
found (k ∷ ks) s (suc i) d e h = found ks _ i d (ground (arith, e)) (omega arith)

-- None of the keys has an entry in the table.
abbrev free : List KeyEvent → (ℕ → Option KeyEvent) → Bool
free [] f = true
free (k ∷ ks) f = not (is_set (f k.scan_code)) && free ks f

free_after :
    (ks : List KeyEvent) (f : ℕ → Option KeyEvent) (c : ℕ) (v : Option KeyEvent)
    → fresh c ks ≡ true
    → free ks f ≡ true
    → free ks (update f c v) ≡ true
free_after [] f c v e h = refl
free_after (k ∷ ks) f c v e h =
    let other : update f c v k.scan_code ≡ f k.scan_code =
      update_ne f c k.scan_code v (ground (arith, e)) in
    rw other (ground (arith, free_after ks f c v, e, h))

unreported :
    (ks : List KeyEvent) (s : KeyTable)
    → distinct ks ≡ true
    → free ks s.scancode_map ≡ true
    → (register_keys ks s).registered_twice ≡ s.registered_twice
unfolding register_keys
unreported [] s e h = refl
unreported (k ∷ ks) s e h =
    let clear : is_set (s.scancode_map k.scan_code) ≡ false = ground (arith, h) in
    unreported ks _ (ground (arith, e))
      (free_after ks s.scancode_map k.scan_code (some k) (ground (arith, e)) (ground (arith, h)))
    ∙ rw clear refl

-- The table as the kernel starts.
abbrev pub no_keys : KeyTable
no_keys = record { scancode_map = λ c. none; registered_twice = [] }

none_set : (ks : List KeyEvent) → free ks (λ c. none) ≡ true
unfolding is_set
none_set [] = refl
none_set (k ∷ ks) = none_set ks

-- From the empty table, the loop of ps2_init finds no scan code of the key map registered already,
-- and leaves every event of the key map at its scan code.
pub register_keys_lem :
    (i : ℕ) (d : KeyEvent)
    → i < length key_map
    → let keys = register_keys key_map no_keys in
      (keys.registered_twice ≡ [])
      × (keys.scancode_map (get_or key_map i d).scan_code ≡ some (get_or key_map i d))
register_keys_lem i d h =
    (unreported key_map no_keys refl (none_set key_map), found key_map no_keys i d refl h)

-- The event of a key down, or of a key up, at an entry of the table.
abbrev is_event : ℕ → Option KeyEvent → Bool
is_event t none = false
is_event t (some k) = k.event_type == t

-- The codes c and c + 128 are both unused, or the press and the release of one key.
abbrev pub paired : (ℕ → Option KeyEvent) → ℕ → Bool
paired f c =
    (not (is_set (f c)) && not (is_set (f (c + 128))))
    || (is_event 0 (f c) && is_event 1 (f (c + 128)))

all_paired :
    all_below 128 (λ c. c == 96 || paired (register_keys key_map no_keys).scancode_map c) ≡ true
unfolding all_below register_keys is_set
all_paired = refl

-- In the table that ps2_init leaves, each scan code c below 128 but 96 is the press of a key whose
-- release is at c + 128, or neither of the two codes has an event.
pub released_keys :
    (c : ℕ) → c < 128 → c ≢ 96 → paired (register_keys key_map no_keys).scancode_map c ≡ true
released_keys c h other = ground (
  arith,
  all_below_sound 128 (λ c. c == 96 || paired (register_keys key_map no_keys).scancode_map c) c
      all_paired h,
)
