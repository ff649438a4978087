-- ===== src/Sync/Writeback/Batches/Rounds.antt =====
-- How the rounds of FlushAll and processBatch end: internal/mount/syncer/writeback.go.
use pigcloud_cli.Common.{
  ℕ, zero, suc, ◌+◌, ◌-◌, ◌/◌, ◌≤◌, ◌<◌, List, [], ◌∷◌, ◌++◌, true, false, ◌≡◌, ◌≢◌, refl, inl, inr,
  arith, ◌==◌, if_both, length, Bool-cases, subst, leb, leb→le,
}
use pigcloud_cli.Retry.{second}
use pigcloud_cli.Cache.{Entry, Db}
use pigcloud_cli.Cache.Queue.{dequeue_writeback}
use pigcloud_cli.Sync.Writeback.{process_entry, held_by_conflict}
use pigcloud_cli.Sync.Writeback.Batches.{
  World, outcome_at, succeeded, requeue_all, Ran, run_entries, finished, process_batch,
  process_batch_size, debounce_delay, out_of_fuel, Flush, flush_from, flush_all,
}
use pigcloud_cli.Sync.Writeback.Batches.Claimed.{
  NoneClaimed, none_claimed, ClaimedBy, ids, run_entries-Left, dequeue-ClaimedBy,
}

run_entries-step :
    (w : World) (k : ℕ) (d : Db) (held : List Entry) (n : ℕ) (es : List Entry)
    → (run_entries w k d held n es).ended ≡ false
    → (run_entries w k d held n es).step ≡ k + length es
unfolding run_entries
run_entries-step w k d held n [] h = omega arith
run_entries-step w k d held n (e ∷ es) h = elim (Bool-cases (w.expired k)) [
  | inl over ↦ absurd (cc (rw (over, run_entries) at h))
  | inr goes_on ↦
      rw (goes_on, run_entries)
        (elim (Bool-cases (held_by_conflict d e)) [
          | inl holds ↦ rw holds (
              omega (
                arith,
                run_entries-step w (suc k) d (held ++ e ∷ []) n es
                    (rw (goes_on, run_entries, holds) at h),
              ))
          | inr free ↦ rw free (
              omega (
                arith,
                run_entries-step w (suc k) (process_entry d e (outcome_at w k e) (w.clock k)) held
                    (n + succeeded (outcome_at w k e)) es (rw (goes_on, run_entries, free) at h),
              ))
        ])
]

run_entries-ended :
    (w : World) (k : ℕ) (d : Db) (held : List Entry) (n : ℕ) (es : List Entry)
    → w.expired k ≡ true
    → (length es == 0) ≡ false
    → (run_entries w k d held n es).ended ≡ true
unfolding run_entries
run_entries-ended w k d held n [] over some_left = absurd cc
run_entries-ended w k d held n (e ∷ es) over some_left = rw (over, run_entries) refl

-- What a round claims, and what the run over it leaves.
abbrev claimed_at : World → ℕ → Db → Db × List Entry
claimed_at w k d = dequeue_writeback d process_batch_size 0 (w.clock k / second)

abbrev round : World → ℕ → Db → ℕ → Ran
round w k d n = run_entries w k (claimed_at w k d).0 [] n (claimed_at w k d).1

module _ (w : World) (last : ℕ) (ends : (k : ℕ) → last ≤ k → w.expired k ≡ true) where
  -- A round that is followed by another began before the context ended, and visited an entry.
  nearer :
      (k fuel : ℕ) (d : Db) (n : ℕ)
      → last - k < suc fuel
      → (length (claimed_at w k d).1 == 0) ≡ false
      → (round w k d n).ended ≡ false
      → last - (round w k d n).step < fuel
  nearer k fuel d n h some_claimed goes_on = elim (Bool-cases (leb last k)) [
    | inl over ↦ absurd (
        cc (
          goes_on,
          run_entries-ended w k (claimed_at w k d).0 [] n (claimed_at w k d).1
              (ends k (leb→le last k over)) some_claimed,
        ))
    | inr before ↦ ground (
      arith,
      before,
      some_claimed,
      run_entries-step w k (claimed_at w k d).0 [] n (claimed_at w k d).1 goes_on,
    )
  ]

  flush_from-Ends :
      (fuel k : ℕ) (d : Db) (n : ℕ)
      → last - k < fuel
      → (flush_from w fuel k d n).ending ≢ out_of_fuel
  unfolding flush_from
  flush_from-Ends zero k d n h = absurd (omega arith)
  flush_from-Ends (suc fuel) k d n h = elim (Bool-cases (w.claim_fails k)) [
    | inl fails ↦ rw (fails, flush_from) (λ e. cc)
    | inr claims ↦
        rw (claims, flush_from)
          (elim (Bool-cases (length (claimed_at w k d).1 == 0)) [
            | inl nothing ↦ rw nothing (λ e. cc)
            | inr some_claimed ↦ rw some_claimed (elim (Bool-cases (round w k d n).ended) [
              | inl over ↦ rw over (λ e. cc)
              | inr goes_on ↦
                  rw goes_on
                    (elim (Bool-cases
                      (length (round w k d n).held == length (claimed_at w k d).1)) [
                        | inl all_held ↦ rw all_held (λ e. cc)
                        | inr more ↦ rw more (
                            flush_from-Ends fuel (round w k d n).step
                              (requeue_all (round w k d n).db (round w k d n).held)
                              (round w k d n).flushed (nearer k fuel d n h some_claimed goes_on))
                      ])
            ])
          ])
  ]

no_entries : (l : List Entry) → (length l == 0) ≡ true → l ≡ []
no_entries [] h = refl
no_entries (e ∷ l) h = absurd (ground arith)

flush_from-NoneClaimed :
    (w : World) (fuel k : ℕ) (d : Db) (n : ℕ)
    → NoneClaimed d
    → NoneClaimed (flush_from w fuel k d n).db
unfolding flush_from
flush_from-NoneClaimed w zero k d n h = h
flush_from-NoneClaimed w (suc fuel) k d n h =
    let claimed = dequeue-ClaimedBy d process_batch_size 0 (w.clock k / second) h in
    let left = run_entries-Left w k (claimed_at w k d).0 [] n (claimed_at w k d).1 claimed in
    elim (Bool-cases (w.claim_fails k)) [
      | inl fails ↦ rw (fails, flush_from) h
      | inr claims ↦
          rw (claims, flush_from)
            (elim (Bool-cases (length (claimed_at w k d).1 == 0)) [
              | inl nothing ↦ rw nothing (
                  none_claimed (claimed_at w k d).0.queue (
                    subst (λ l. ClaimedBy (ids l) (claimed_at w k d).0.queue)
                      (no_entries (claimed_at w k d).1 nothing) claimed))
              | inr some_claimed ↦ rw some_claimed (elim (Bool-cases (round w k d n).ended) [
                | inl over ↦ rw over (rw over at left)
                | inr goes_on ↦
                    let requeued : NoneClaimed
                        (requeue_all (round w k d n).db (round w k d n).held) =
                      rw goes_on at left in
                    rw goes_on
                      (elim (Bool-cases
                        (length (round w k d n).held == length (claimed_at w k d).1)) [
                          | inl all_held ↦ rw all_held requeued
                          | inr more ↦ rw more (
                              flush_from-NoneClaimed w fuel (round w k d n).step
                                (requeue_all (round w k d n).db (round w k d n).held)
                                (round w k d n).flushed requeued)
                        ])
              ])
            ])
    ]

-- Where no entry is claimed at first, none is after a batch or after FlushAll, however they end: by
-- the context, with entries held back by a conflict, by a failing claim or with all done, and
-- whatever each transfer gives. What was claimed is settled or returned.
pub batches-NoneClaimed :
    (w : World) (k fuel : ℕ) (d : Db)
    → NoneClaimed d
    → NoneClaimed (process_batch w k d) × NoneClaimed (flush_all w fuel d).db
unfolding process_batch flush_all
batches-NoneClaimed w k fuel d h =
    let before = (w.clock k - debounce_delay) / second in
    let now = w.clock k / second in
    let (d', es) = dequeue_writeback d process_batch_size before now in
    (
      if_both NoneClaimed (w.claim_fails k) d (finished (run_entries w k d' [] 0 es)) h
          (run_entries-Left w k d' [] 0 es (dequeue-ClaimedBy d process_batch_size before now h)),
      if_both (λ (t : Flush). NoneClaimed t.db) d.writeback_disabled _ (flush_from w fuel 0 d 0) h
          (flush_from-NoneClaimed w fuel 0 d 0 h),
    )

-- The fuel is enough where it is above the number of visits before the context ends: each round
-- that is followed by another visits an entry.
flush_all-Ends :
    (w : World) (last fuel : ℕ) (d : Db)
    → ((k : ℕ) → last ≤ k → w.expired k ≡ true)
    → last < fuel
    → (flush_all w fuel d).ending ≢ out_of_fuel
unfolding flush_all
flush_all-Ends w last fuel d ends enough =
    if_both (λ (t : Flush). t.ending ≢ out_of_fuel) d.writeback_disabled _ (flush_from w fuel 0 d 0)
      (λ e. cc) (flush_from-Ends w last ends fuel 0 d 0 (omega arith))
