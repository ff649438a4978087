-- ===== src/Sync/Writeback/Batches.antt =====
-- The loops over claimed entries, processBatch and FlushAll of internal/mount/syncer/writeback.go.
-- `k` counts the entries that were visited; what the world answers is given for each.
pub mod Claimed
pub mod Rounds
pub mod Returned
pub mod Starved
pub mod Held
use pigcloud_cli.Common.{
  ℕ, zero, suc, ◌+◌, ◌-◌, ◌*◌, ◌/◌, List, [], ◌∷◌, ◌++◌, Bool, true, false, ltb, ◌==◌,
  if◌then◌else◌, length,
}
use pigcloud_cli.Retry.{second}
use pigcloud_cli.Cache.{Entry, Db}
use pigcloud_cli.Cache.Queue.{dequeue_writeback, deferred_writeback_count}
use pigcloud_cli.Sync.Writeback.{
  Outcome, failure, success, process_entry, outcome_of, held_by_conflict, requeue,
}

abbrev pub process_batch_size : ℕ
process_batch_size = 10

-- debounceDelay, in nanoseconds
abbrev pub debounce_delay : ℕ
debounce_delay = 2 * second

-- What a transfer gives, and gives again where its seal was stale; the time in nanoseconds; whether
-- the context has ended, and whether a claim fails in the database.
pub record World : Type 0 where
  pub outcome : ℕ → Outcome
  pub again : ℕ → Outcome
  pub clock : ℕ → ℕ
  pub expired : ℕ → Bool
  pub claim_fails : ℕ → Bool

abbrev pub outcome_at : World → ℕ → Entry → Outcome
outcome_at w k e = outcome_of e (w.outcome k) (w.again k)

-- processEntry's result
abbrev pub succeeded : Outcome → ℕ
succeeded (failure err) = 0
succeeded (success u) = 1

-- requeue
unfoldable pub requeue_all : Db → List Entry → Db
requeue_all d [] = d
requeue_all d (e ∷ es) = requeue_all (requeue d e) es

-- What the loop over a batch leaves: the count of visits, the entries held by a conflict, the count
-- of those flushed, and whether the context ended in it.
pub record Ran : Type 0 where
  pub db : Db
  pub step : ℕ
  pub held : List Entry
  pub flushed : ℕ
  pub ended : Bool

unfoldable pub run_entries : World → ℕ → Db → List Entry → ℕ → List Entry → Ran
run_entries w k d held n [] = record { db = d; step = k; held = held; flushed = n; ended = false }
run_entries w k d held n (e ∷ es) = elim (w.expired k) [
  | true ↦ record {
    db = requeue_all (requeue_all d (e ∷ es)) held;
    step = k;
    held = held;
    flushed = n;
    ended = true;
  }
  | false ↦ elim (held_by_conflict d e) [
    | true ↦ run_entries w (suc k) d (held ++ e ∷ []) n es
    | false ↦
        let o = outcome_at w k e in
        run_entries w (suc k) (process_entry d e o (w.clock k)) held (n + succeeded o) es
  ]
]

abbrev finished : Ran → Db
finished r = if r.ended then r.db else requeue_all r.db r.held

-- processBatch, at visit `k`
unfoldable pub process_batch : World → ℕ → Db → Db
process_batch w k d =
    if w.claim_fails k
    then d
    else let (d', entries) =
        dequeue_writeback d process_batch_size ((w.clock k - debounce_delay) / second)
          (w.clock k / second) in
      finished (run_entries w k d' [] 0 entries)

pub data Ending : Type 0 where
  all_done claim_failed timed_out read_only out_of_fuel : Ending

-- the database, the count of those flushed, the count of visits, and how the loop ended
pub record Flush : Type 0 where
  pub db : Db
  pub flushed : ℕ
  pub step : ℕ
  pub ending : Ending

-- the loop of FlushAll, a round for each unit of fuel
unfoldable pub flush_from : World → ℕ → ℕ → Db → ℕ → Flush
flush_from w zero k d n = record { db = d; flushed = n; step = k; ending = out_of_fuel }
flush_from w (suc fuel) k d n = elim (w.claim_fails k) [
  | true ↦ record { db = d; flushed = n; step = k; ending = claim_failed }
  | false ↦
      let (d', entries) = dequeue_writeback d process_batch_size 0 (w.clock k / second) in
      let r = run_entries w k d' [] n entries in
      elim (length entries == 0) [
        | true ↦ record { db = d'; flushed = n; step = k; ending = all_done }
        | false ↦ elim r.ended [
          | true ↦ record { db = r.db; flushed = r.flushed; step = r.step; ending = timed_out }
          | false ↦
              let d'' = requeue_all r.db r.held in
              elim (length r.held == length entries) [
                | true ↦ record { db = d''; flushed = r.flushed; step = r.step; ending = all_done }
                | false ↦ flush_from w fuel r.step d'' r.flushed
              ]
        ]
      ]
]

-- FlushAll, but for the counts of withDeferred
unfoldable pub flush_all : World → ℕ → Db → Flush
flush_all w fuel d =
    if d.writeback_disabled
    then record { db = d; flushed = 0; step = 0; ending = read_only }
    else flush_from w fuel 0 d 0

-- withDeferred: the entries due later, and nanoseconds to the first
unfoldable pub with_deferred : Db → ℕ → ℕ × ℕ
with_deferred d now =
    let horizon = now / second + 1 in
    let (count, next) = deferred_writeback_count d horizon in
    (count, if ltb horizon next then (next - horizon) * second else 0)
