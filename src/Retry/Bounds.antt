-- ===== src/Retry/Bounds.antt =====
-- How long the client waits, whatever the server answers.
use native.Mathlib.Nat.{pow-suc}
use pigcloud_cli.Common.{
  ℕ, zero, suc, ◌+◌, ◌-◌, ◌*◌, ◌^◌, ◌≤◌, ◌<◌, Bool, true, ◌&&◌, ◌≡◌, refl, min, subst,
  if◌then◌else◌, some, arith, ltb, ◌==◌, ==_iff, inl, inr, Bool-cases, Option-cases,
}
use pigcloud_cli.Retry.{
  Failure, hour, two64, transfer_retry_base, transfer_retry_max, retry_after_hint, rate_limit_delay,
  scan_budget_wait, backoff_after_shift, transfer_backoff, writeback_retry_delay,
}

all_below : ℕ → (ℕ → Bool) → Bool
all_below zero p = true
all_below (suc n) p = p n && all_below n p

all_below-apply : (n : ℕ) (p : ℕ → Bool) (x : ℕ) → all_below n p ≡ true → x < n → p x ≡ true
unfolding all_below
all_below-apply zero p x h lt = absurd (omega arith)
all_below-apply (suc n) p x h lt = ground (arith, all_below-apply n p x)

-- The doubling without wrap-around.
abbrev pub ideal_backoff : ℕ → ℕ
ideal_backoff k = min (transfer_retry_base * 2 ^ k) transfer_retry_max

backoff_table : all_below 64 (λ k. backoff_after_shift k == ideal_backoff k) ≡ true
unfolding all_below backoff_after_shift
backoff_table = refl

pow_past_word : (j : ℕ) → 2 ^ (j + 64) ≡ 2 ^ j * two64
pow_past_word zero = refl
pow_past_word (suc j) =
    let e : suc j + 64 ≡ suc (j + 64) = omega arith in
    rw e (omega (arith, pow-suc 2 (j + 64), pow-suc 2 j, pow_past_word j))

pow_pos : (j : ℕ) → 1 ≤ 2 ^ j
pow_pos zero = omega arith
pow_pos (suc j) = omega (arith, pow-suc 2 j, pow_pos j)

backoff_past_word : (j : ℕ) → backoff_after_shift (j + 64) ≡ ideal_backoff (j + 64)
unfolding backoff_after_shift
backoff_past_word j = rw (pow_past_word j) (ground (arith, pow_pos j))

backoff_after_shift-ideal : (k : ℕ) → backoff_after_shift k ≡ ideal_backoff k
backoff_after_shift-ideal k = elim (Bool-cases (ltb k 64)) [
  | inl small ↦ (==_iff _ _).0 (all_below-apply 64 _ k backoff_table (ground arith))
  | inr large ↦
      let e : (k - 64) + 64 ≡ k = ground arith in
      subst (λ n. backoff_after_shift n ≡ ideal_backoff n) e (backoff_past_word (k - 64))
]

-- For every attempt count the wait is 30 seconds doubled once for each attempt after the first,
-- and one hour at most: the 64-bit shift never shows through.
pub transfer_backoff-ideal : (k : ℕ) → transfer_backoff (suc k) ≡ ideal_backoff k
unfolding transfer_backoff
transfer_backoff-ideal k =
    let e : (if ltb (suc k) 1 then 1 else suc k) - 1 ≡ k = ground arith in
    rw e (backoff_after_shift-ideal k)

-- The wait of every attempt count lies between 30 seconds and an hour, and is no longer than that
-- of the next count.
pub transfer_backoff_bounds :
    (n : ℕ)
    → (transfer_retry_base ≤ transfer_backoff n)
      × (transfer_backoff n ≤ transfer_retry_max)
      × (transfer_backoff n ≤ transfer_backoff (suc n))
transfer_backoff_bounds zero = rw no_attempt (omega (arith, transfer_backoff-ideal 0))
  where
    no_attempt : transfer_backoff 0 ≡ transfer_backoff 1
    no_attempt = unfold transfer_backoff in refl
transfer_backoff_bounds (suc k) =
    omega (arith, transfer_backoff-ideal k, transfer_backoff-ideal (suc k), pow_pos k, pow-suc 2 k)

rate_limit_delay_bounds :
    (n hint : ℕ)
    → 0 < n
    → n ≤ 240
    → (0 < rate_limit_delay (n - 1) hint) × (rate_limit_delay (n - 1) hint ≤ hour)
unfolding rate_limit_delay
rate_limit_delay_bounds n hint h k = ground arith

scan_budget_wait_bounds : (e : Failure) (w : ℕ) → scan_budget_wait e ≡ some w → (0 < w) × (w ≤ hour)
unfolding scan_budget_wait
scan_budget_wait_bounds e w h = ground arith

-- Whatever the server sends as Retry-After, the wait before a writeback is tried again is positive
-- and one hour at most, for the first 240 attempts.
pub writeback_retry_delay_bounds :
    (e : Failure) (n : ℕ)
    → 0 < n
    → n ≤ 240
    → (0 < writeback_retry_delay e n) × (writeback_retry_delay e n ≤ hour)
unfolding writeback_retry_delay
writeback_retry_delay_bounds e n h k = elim (Option-cases (scan_budget_wait e)) [
  | inl no_budget ↦
      rw (no_budget, writeback_retry_delay)
        (ground (arith, rate_limit_delay_bounds n (retry_after_hint e), transfer_backoff_bounds n))
  | inr (w, budget) ↦ rw (budget, writeback_retry_delay) (scan_budget_wait_bounds e w budget)
]
