-- ===== src/Hpet/Sleep.antt =====
-- The waiting loop of src/hpet.c.
use bloreos.Base.{
  ℕ, zero, suc, ◌+◌, ◌≤◌, ◌<◌, ◌≡◌, refl, ap, sym, ◌∙◌, false, true, some, ltb, arith,
}
use bloreos.Hpet.{
  Hpet, clear_bits, store, main_counter_at, timer_config_reg, hpet_disable, hpet_enable,
  wait_counter, ticks_for, hpet_sleep_counter,
}

wait_counter_lem :
    (left n k limit : ℕ) (readings : ℕ → ℕ)
    → k < left
    → limit ≤ readings (n + k)
    → ((i : ℕ) → i < k → readings (n + i) < limit)
    → wait_counter left readings limit n ≡ some (n + k)
unfolding wait_counter
wait_counter_lem zero n k limit readings small reached below = absurd (omega arith)
wait_counter_lem (suc left) n zero limit readings small reached below =
    let here : n + 0 ≡ n = omega arith in
    let over : ltb (readings n) limit ≡ false = ground (arith, ap readings here, reached) in
    rw (over, here) refl
wait_counter_lem (suc left) n (suc k) limit readings small reached below =
    let here : n + 0 ≡ n = omega arith in
    let next : n + 1 + k ≡ n + suc k = omega arith in
    let under : ltb (readings n) limit ≡ true =
      ground (arith, ap readings here, below 0 (omega arith)) in
    rw (under, sym next)
      (wait_counter_lem left (n + 1) k limit readings (omega arith)
        (omega (arith, reached, ap readings next))
        (λ i h.
          let e : n + 1 + i ≡ n + suc i = omega arith in
          omega (arith, ap readings e, below (suc i) (omega arith))))

-- hpet_sleep_counter returns at the first reading of the main counter that is not below the number of
-- ticks in the given milliseconds, if there is one among the readings looked at, and leaves the
-- ticks of the interrupt as they were.
pub hpet_sleep_counter-first :
    (left k ms : ℕ) (readings : ℕ → ℕ) (h : Hpet)
    → k < left
    → ticks_for h ms ≤ readings k
    → ((i : ℕ) → i < k → readings i < ticks_for h ms)
    → (h' : Hpet) × (hpet_sleep_counter left readings ms h ≡ some (k, h')) × (h'.ticks ≡ h.ticks)
unfolding hpet_sleep_counter hpet_disable hpet_enable
hpet_sleep_counter-first left k ms readings h small reached below =
    let quiet = clear_bits (timer_config_reg h 0) 4 (hpet_disable h) in
    let slept = hpet_disable (hpet_enable (store (main_counter_at h) 0 quiet)) in
    let zero_plus : (i : ℕ) → 0 + i ≡ i = λ i. omega arith in
    let ended : wait_counter left readings (ticks_for h ms) 0 ≡ some k =
      wait_counter_lem left 0 k (ticks_for h ms) readings small
        (omega (arith, ap readings (zero_plus k), reached))
        (λ i b. omega (arith, ap readings (zero_plus i), below i b))
      ∙ ap some (zero_plus k) in
    (slept, rw ended refl, refl)
