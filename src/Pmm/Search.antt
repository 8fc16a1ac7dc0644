-- ===== src/Pmm/Search.antt =====
-- kalloc's loop: it ends within two rounds, what it finds is a run of free pages inside the map,
-- and it finds one if there is one.
use bloreos.Base.{
  ℕ, zero, suc, ◌+◌, ◌-◌, ◌≤◌, ◌<◌, ◌^◌, ◌≡◌, ◌⊎◌, inl, inr, true, false, arith, ◌==◌,
  if◌then◌else◌, Bool-cases, Ram, u64,
}
use bloreos.Bitmap.{bitmap_test}
use bloreos.Pmm.{Scan, Found, run, no_run, unfinished, collect, forward, find_run, advance}

-- The pages from a up to b are free.
abbrev pub IsFree : Ram → ℕ → ℕ → Type 0
IsFree m a b = (i : ℕ) → a ≤ i → i < b → bitmap_test m i ≡ false

-- The loop did not give up.
abbrev pub NotMissed : Found → Type 0
NotMissed (no_run t) = ⊥
NotMissed _ = Unit {0}

-- The most rounds that the loop may still make.
abbrev pub rounds_left : ℕ → Scan → ℕ
rounds_left max s = (if s.looped then 0 else max) + (max - s.cursor)

module _ (m : Ram) (max pages : ℕ) where
  -- At the head of the loop.
  pub record Looping (s : Scan) : Type 0 where
    pub cursor_in : s.cursor < max
    pub short : s.allocated_pages < pages
    pub contiguous : s.allocating ≡ true → s.start_alloc_page + s.allocated_pages ≡ s.cursor
    pub free : s.allocating ≡ true → IsFree m s.start_alloc_page s.cursor

  pub record IsRun (t : Scan) : Type 0 where
    pub count : t.allocated_pages ≡ pages
    pub inside : t.start_alloc_page + pages ≤ max
    pub all_free : IsFree m t.start_alloc_page (t.start_alloc_page + pages)
    pub next_in : t.cursor < max

  -- What the loop may answer from such a state, with the fuel that two rounds need.
  abbrev pub Sound : Found → Type 0
  Sound (run t) = IsRun t
  Sound (no_run t) = t.cursor < max
  Sound unfinished = ⊥

  -- After the first half of the body: the run reaches past the cursor.
  record Collected (s t : Scan) : Type 0 where
    same_cursor : t.cursor ≡ s.cursor
    same_looped : t.looped ≡ s.looped
    at_most : t.allocated_pages ≤ pages
    reaches : t.allocating ≡ true → t.start_alloc_page + t.allocated_pages ≡ s.cursor + 1
    grows : t.allocated_pages ≡ pages → t.allocating ≡ true
    free : t.allocating ≡ true → IsFree m t.start_alloc_page (s.cursor + 1)

  module _ (small : max < 2 ^ 64) (some_pages : 0 < pages) (few : pages < 2 ^ 64) where
    collect-Collected : (s : Scan) → Looping s → Collected s (collect (bitmap_test m s.cursor) s)
    unfolding collect
    collect-Collected s h = record {
      same_cursor = ground arith;
      same_looped = ground arith;
      at_most = ground arith;
      reaches = ground arith;
      grows = ground arith;
      free = λ e i lo hi. ground (arith, λ (a : s.allocating ≡ true). h.free a i);
    }

    -- The two ways in which the loop goes on.
    module _ (fuel : ℕ) (s t : Scan) (f : rounds_left max s < suc fuel) (h : Looping s)
        (k : Collected s t) (e : (t.allocated_pages == pages) ≡ false) where
      abbrev restarted : Scan
      restarted = record t { cursor = advance max t.cursor; looped = true; allocating = false }

      restart-Looping :
          (u64 (t.cursor + 1) == max) ≡ true
          → t.looped ≡ false
          → (rounds_left max restarted < fuel) × Looping restarted
      restart-Looping last new = (
        ground arith,
        record {
          cursor_in = ground arith;
          short = ground arith;
          contiguous = λ a. cc;
          free = λ a. cc;
        },
      )

      abbrev moved : Scan
      moved = record t { cursor = advance max t.cursor }

      move-Looping :
          (u64 (t.cursor + 1) == max) ≡ false → (rounds_left max moved < fuel) × Looping moved
      move-Looping more = (
        ground arith,
        record {
          cursor_in = ground arith;
          short = ground arith;
          contiguous = λ a. ground arith;
          free = λ a i lo hi. k.free a i lo (ground arith);
        },
      )

    forward-Sound :
        (fuel : ℕ) (next : Scan → Found) (s t : Scan)
        → rounds_left max s < suc fuel
        → Looping s
        → Collected s t
        → ((u : Scan) → rounds_left max u < fuel → Looping u → Sound (next u))
        → Sound (forward max pages next t)
    unfolding forward
    forward-Sound fuel next s t f h k ih = elim (Bool-cases (t.allocated_pages == pages)) [
      | inl e ↦ rw e (record {
        count = ground arith;
        inside = ground arith;
        all_free = λ i lo hi. k.free (ground arith) i lo (ground arith);
        next_in = ground arith;
      })
      | inr e ↦ rw e (elim (Bool-cases (u64 (t.cursor + 1) == max)) [
        | inl last ↦ rw last (elim (Bool-cases t.looped) [
          | inl old ↦ rw old (ground arith)
          | inr new ↦
              let (less, l) = restart-Looping fuel s t f h k e last new in
              rw new (ih _ (rw last at less) (rw last at l))
        ])
        | inr more ↦
            let (less, l) = move-Looping fuel s t f h k e more in
            rw more (ih _ (rw more at less) (rw more at l))
      ])
    ]

    pub find_run-Sound :
        (fuel : ℕ) (s : Scan)
        → rounds_left max s < fuel
        → Looping s
        → Sound (find_run m max pages fuel s)
    unfolding find_run
    find_run-Sound zero s f h = absurd (omega arith)
    find_run-Sound (suc fuel) s f h =
        forward-Sound fuel (find_run m max pages fuel) s (collect (bitmap_test m s.cursor) s) f h
          (collect-Collected s h) (find_run-Sound fuel)

    -- The pages from a on would do.
    module _ (a : ℕ) (room : a + pages ≤ max) (free_there : IsFree m a (a + pages)) where
      -- In the second round the loop has not passed a without collecting a run that holds it.
      abbrev Ahead : Scan → Type 0
      Ahead s =
          s.looped ≡ true → (s.cursor ≤ a) ⊎ ((s.allocating ≡ true) × (s.start_alloc_page ≤ a))

      collect-Ahead :
          (s : Scan)
          → Looping s
          → Ahead s
          → let t = collect (bitmap_test m s.cursor) s in
            t.looped ≡ true → (s.cursor < a) ⊎ ((t.allocating ≡ true) × (t.start_alloc_page ≤ a))
      unfolding collect
      collect-Ahead s h b = ground (arith, free_there s.cursor)

      forward-NotMissed :
          (fuel : ℕ) (next : Scan → Found) (s t : Scan)
          → rounds_left max s < suc fuel
          → Looping s
          → Collected s t
          → (t.looped ≡ true → (s.cursor < a) ⊎ ((t.allocating ≡ true) × (t.start_alloc_page ≤ a)))
          → ((u : Scan) → rounds_left max u < fuel → Looping u → Ahead u → NotMissed (next u))
          → NotMissed (forward max pages next t)
      unfolding forward
      forward-NotMissed fuel next s t f h k b ih = elim (Bool-cases (t.allocated_pages == pages)) [
        | inl e ↦ rw e tt
        | inr e ↦ rw e (elim (Bool-cases (u64 (t.cursor + 1) == max)) [
          | inl last ↦ rw last (elim (Bool-cases t.looped) [
            | inl old ↦ rw old (ground arith)
            | inr new ↦
                let (less, l) = restart-Looping fuel s t f h k e last new in
                rw new (ih _ (rw last at less) (rw last at l) (λ _. inl (ground arith)))
          ])
          | inr more ↦
              let (less, l) = move-Looping fuel s t f h k e more in
              rw more (ih _ (rw more at less) (rw more at l) (λ o. ground arith))
        ])
      ]

      pub find_run-NotMissed :
          (fuel : ℕ) (s : Scan)
          → rounds_left max s < fuel
          → Looping s
          → Ahead s
          → NotMissed (find_run m max pages fuel s)
      unfolding find_run
      find_run-NotMissed zero s f h b = tt
      find_run-NotMissed (suc fuel) s f h b =
          forward-NotMissed fuel (find_run m max pages fuel) s (collect (bitmap_test m s.cursor) s)
            f h (collect-Collected s h) (collect-Ahead s h b) (find_run-NotMissed fuel)
