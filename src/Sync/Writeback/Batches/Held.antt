-- ===== src/Sync/Writeback/Batches/Held.antt =====
-- FlushAll where all that is due is held back by a conflict: internal/mount/syncer/writeback.go.
use pigcloud_cli.Common.{
  ℕ, zero, suc, ◌/◌, ◌<◌, List, [], ◌∷◌, true, false, ◌≡◌, refl, ◌∙◌, ap, subst, sym, inl, inr,
  arith, ◌==◌, ==_iff, if_false, length, All, Bool-cases,
}
use pigcloud_cli.Retry.{second}
use pigcloud_cli.Cache.{Entry, Db}
use pigcloud_cli.Cache.Queue.{
  set_queue, update, chosen, claim, selected, horizon, dequeue_writeback,
}
use pigcloud_cli.Sync.Writeback.{held_by_conflict}
use pigcloud_cli.Sync.Writeback.Attempts.{OneRow}
use pigcloud_cli.Sync.Writeback.Batches.{
  World, Ran, run_entries, requeue_all, process_batch_size, Flush, all_done, flush_from, flush_all,
}
use pigcloud_cli.Sync.Writeback.Batches.Starved.{
  taken, batch, run_entries-held, claimed-held, claimed-restored,
}

-- The flush ends with all done, with `n` flushed and the queue as in `d`.
abbrev pub Stops : Db → ℕ → Flush → Type 0
Stops d n t = (t.ending ≡ all_done) × (t.flushed ≡ n) × (t.db.queue ≡ d.queue)

no_entries : (l : List Entry) → (length l == 0) ≡ true → l ≡ []
no_entries [] h = refl
no_entries (e ∷ l) h = absurd (ground arith)

flush_from-Stops :
    (w : World) (fuel k : ℕ) (d : Db) (n : ℕ)
    → ((i : ℕ) → w.expired i ≡ false)
    → w.claim_fails k ≡ false
    → OneRow d.queue
    → All
        (λ e. held_by_conflict d e ≡ true)
        (selected process_batch_size (horizon 0 (w.clock k / second)) d.queue)
    → Stops d n (flush_from w (suc fuel) k d n)
unfolding flush_from dequeue_writeback requeue_all
flush_from-Stops w fuel k d n goes_on claims one held =
    let before = horizon 0 (w.clock k / second) in
    let d' = set_queue d (update (chosen (batch d before)) claim d.queue) in
    let es = taken (batch d before) d.queue in
    let ran = run_entries-held w k d' [] n es goes_on (claimed-held d before one held) in
    let restored : (requeue_all d' es).queue ≡ d.queue = claimed-restored d before one in
    rw (claims, flush_from)
      (elim (Bool-cases (length es == 0)) [
        | inl nothing ↦
            let back : d'.queue ≡ d.queue =
              subst (λ l. (requeue_all d' l).queue ≡ d.queue) (no_entries es nothing) restored in
            rw nothing (refl, refl, back)
        | inr some_claimed ↦
            let r = run_entries w k d' [] n es in
            let goes_on : r.ended ≡ false = ap (λ (t : Ran). t.ended) ran in
            let all_held : (length r.held == length es) ≡ true =
              (==_iff (length r.held) (length es)).1 (ap (λ (t : Ran). length t.held) ran) in
            rw some_claimed (
              rw goes_on (
                rw all_held (
                  refl,
                  ap (λ (t : Ran). t.flushed) ran,
                  ap (λ (t : Ran). (requeue_all t.db t.held).queue) ran ∙ restored,
                )))
      ])

-- FlushAll does not go round for ever over entries that it cannot flush: where the context never ends,
-- and all that its first claim takes are uploads of inodes in conflict, it ends after that claim, with
-- all done, nothing flushed, and the queue as it was. This is where the mount is not read-only, the
-- claim does not fail, and rows of one id are one row.
pub flush_all-held :
    (w : World) (fuel : ℕ) (d : Db)
    → ((i : ℕ) → w.expired i ≡ false)
    → 0 < fuel
    → d.writeback_disabled ≡ false
    → w.claim_fails 0 ≡ false
    → OneRow d.queue
    → All
        (λ e. held_by_conflict d e ≡ true)
        (selected process_batch_size (horizon 0 (w.clock 0 / second)) d.queue)
    → Stops d 0 (flush_all w fuel d)
unfolding flush_all
flush_all-held w zero d goes_on enough writes claims one held = absurd (omega arith)
flush_all-held w (suc fuel) d goes_on enough writes claims one held =
    subst (Stops d 0) (sym (if_false d.writeback_disabled _ (flush_from w (suc fuel) 0 d 0) writes))
      (flush_from-Stops w fuel 0 d 0 goes_on claims one held)
