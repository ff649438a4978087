-- ===== src/Sync/Writeback/Attempts.antt =====
-- How often the writeback processor tries: internal/mount/syncer/writeback.go.
use pigcloud_cli.Common.{
  ℕ, ◌+◌, ◌<◌, String, List, [], ◌∷◌, true, false, ◌||◌, ◌≡◌, arith, leb, ◌==◌, some, inl, inr,
  Bool-cases, keep, any, All,
}
use pigcloud_cli.Retry.{Failure, writeback_retry_delay}
use pigcloud_cli.Cache.{Action, Extra, Entry, pending, waiting, Db}
use pigcloud_cli.Cache.Inodes.{set_sync_status}
use pigcloud_cli.Cache.Queue.{
  due, is_waiting, update, entry_id, is_gave_up, is_claimed, chosen, claim, selected, horizon,
  enqueue_writeback, dequeue_writeback, requeue_in_progress, update_writeback,
}
use pigcloud_cli.Cache.Queue.Once.{dequeue-defer_writeback, All-selected, All-map}
use pigcloud_cli.Sync.Writeback.{
  max_retries, due_at, Outcome, failure, success, settle_failure, process_entry, requeue,
}
use pigcloud_cli.Sync.Writeback.Settled.{
  Tries, AllTries, All-update, settle_failure-AllTries, settle_success-AllTries,
  enqueue_writeback-AllTries,
}

-- The id is the primary key: rows of one id are one row.
abbrev pub OneRow : List Entry → Type 0
OneRow q = All (λ e. All (λ f. (f.id == e.id) ≡ true → f ≡ e) q) q

-- What the queue goes through: the mount enqueues, the processor claims, and settles or returns
-- what it claimed, and a restart requeues what was in progress.
pub data Step : Db → Db → Type 0 where
  enqueued :
      {d d' : Db} (inode : ℕ) (a : Action) (path : String) (x : Extra) (now : ℕ) (fresh : String)
      → enqueue_writeback d inode a path x now fresh ≡ some d'
      → Step d d'
  dequeued :
      {d : Db} (limit before now : ℕ)
      → OneRow d.queue
      → Step d (dequeue_writeback d limit before now).0
  restarted : {d : Db} → Step d (requeue_in_progress d).0
  returned : {d : Db} (e : Entry) → e.attempts < max_retries → Step d (requeue d e)
  processed : {d : Db} (e : Entry) (o : Outcome) (now : ℕ) → Step d (process_entry d e o now)

pub data Reaches : Db → Db → Type 0 where
  here : {d : Db} → Reaches d d
  then_step : {d e f : Db} → Reaches d e → Step e f → Reaches d f

claimed-live : (f : Entry) → is_claimed f ≡ true → is_gave_up f ≡ false
claimed-live f h = ground arith

waiting-live : (f : Entry) → is_waiting f ≡ true → is_gave_up f ≡ false
waiting-live f h = ground arith

restart-AllTries :
    (l : List Entry)
    → All Tries l
    → All Tries (update is_claimed (λ e. record e { status = waiting }) l)
unfolding update
restart-AllTries [] h = tt
restart-AllTries (e ∷ l) h = elim (Bool-cases (is_claimed e)) [
  | inl hit ↦ rw hit ((λ live. h.0 (claimed-live e hit)), restart-AllTries l h.1)
  | inr miss ↦ rw miss (h.0, restart-AllTries l h.1)
]

due-waiting :
    (before : ℕ) (f : Entry) (q : List Entry)
    → All (λ s. (s.id == f.id) ≡ true → s ≡ f) q
    → All (λ s. (is_waiting s ≡ true) × ((s.id == f.id) ≡ true → s ≡ f)) (keep (due before) q)
due-waiting before f [] h = tt
due-waiting before f (s ∷ q) h = elim (Bool-cases (due before s)) [
  | inl hit ↦ rw hit ((ground arith, h.0), due-waiting before f q h.1)
  | inr miss ↦ rw miss (due-waiting before f q h.1)
]

-- What a claim finds of the row `f`: the entries selected under its id are the row, and pending.
pub chosen-waiting :
    (f : Entry) (sel : List Entry)
    → All (λ s. (is_waiting s ≡ true) × ((s.id == f.id) ≡ true → s ≡ f)) sel
    → chosen sel f ≡ true
    → is_waiting f ≡ true
chosen-waiting f [] h e = absurd cc
chosen-waiting f (s ∷ sel) h e = elim (Bool-cases (s.id == f.id)) [
  | inl hit ↦ rw (h.0.1 hit) at h.0.0
  | inr miss ↦ chosen-waiting f sel h.1 (rw miss at e)
]

pub selected-waiting :
    (limit before : ℕ) (f : Entry) (q : List Entry)
    → All (λ s. (s.id == f.id) ≡ true → s ≡ f) q
    → All (λ s. (is_waiting s ≡ true) × ((s.id == f.id) ≡ true → s ≡ f)) (selected limit before q)
selected-waiting limit before f q h = All-selected _ limit before q (due-waiting before f q h)

claim-Tries :
    (sel l : List Entry)
    → All (λ f. Tries f × (chosen sel f ≡ true → is_waiting f ≡ true)) l
    → All Tries (update (chosen sel) claim l)
unfolding update
claim-Tries sel [] h = tt
claim-Tries sel (f ∷ l) h = elim (Bool-cases (chosen sel f)) [
  | inl hit ↦ rw hit ((λ live. h.0.0 (waiting-live f (h.0.1 hit))), claim-Tries sel l h.1)
  | inr miss ↦ rw miss (h.0.0, claim-Tries sel l h.1)
]

All-both : (P Q : Entry → Type 0) (l : List Entry) → All P l → All Q l → All (λ e. P e × Q e) l
All-both P Q [] p q = tt
All-both P Q (e ∷ l) p q = ((p.0, q.0), All-both P Q l p.1 q.1)

dequeue_writeback-AllTries :
    (d : Db) (limit before now : ℕ)
    → OneRow d.queue
    → AllTries d
    → AllTries (dequeue_writeback d limit before now).0
unfolding dequeue_writeback
dequeue_writeback-AllTries d limit before now one h =
    let sel = selected limit (horizon before now) d.queue in
    claim-Tries sel d.queue (
      All-both Tries (λ f. chosen sel f ≡ true → is_waiting f ≡ true) d.queue h
        (All-map
          (λ f k. chosen-waiting f sel (selected-waiting limit (horizon before now) f d.queue k))
          d.queue one))

Step-AllTries : (d d' : Db) → Step d d' → AllTries d → AllTries d'
unfolding requeue_in_progress requeue update_writeback process_entry
Step-AllTries d d' (enqueued inode a path x now fresh e) h =
    enqueue_writeback-AllTries d d' inode a path x now fresh h e
Step-AllTries d d' (dequeued limit before now one) h =
    dequeue_writeback-AllTries d limit before now one h
Step-AllTries d d' restarted h = restart-AllTries d.queue h
Step-AllTries d d' (returned e left) h =
    All-update Tries (entry_id e.id)
      (λ f. record f { status = waiting; last_error = e.last_error; attempts = e.attempts })
      (λ f k live. left) d.queue h
Step-AllTries d d' (processed e (failure err) now) h = settle_failure-AllTries d e err now h
Step-AllTries d d' (processed e (success u) now) h = settle_success-AllTries d e u now h

-- However the steps interleave (an entry is enqueued, a batch claimed, an entry processed with any
-- outcome, a claimed one returned as it was with tries left, all requeued after a restart), a queue
-- in which every entry that has not been given up was tried less than three times leads only to
-- such queues, where at each claim the rows of one id are one row.
pub Reaches-AllTries : (d d' : Db) → Reaches d d' → AllTries d → AllTries d'
Reaches-AllTries d d' here h = h
Reaches-AllTries d d' (then_step {e = e} r s) h = Step-AllTries e d' s (Reaches-AllTries d e r h)

-- An entry that failed for a passing reason, with tries left, rests for the delay that its error
-- and its number of attempts give: no claim up to an earlier second returns it.
dequeue-settle_failure :
    (d : Db) (e : Entry) (err : Failure) (now limit before clock : ℕ)
    → leb max_retries (e.attempts + 1) ≡ false
    → err.is_permanent ≡ false
    → horizon before clock < due_at now (writeback_retry_delay err (e.attempts + 1))
    → any (entry_id e.id) (dequeue_writeback (settle_failure d e err now) limit before clock).1
      ≡ false
unfolding settle_failure
dequeue-settle_failure d e err now limit before clock left passing h =
    let again : (leb max_retries (e.attempts + 1) || err.is_permanent) ≡ false =
      ground (arith, left, passing) in
    rw again (
      dequeue-defer_writeback (set_sync_status d e.inode_id pending err.message) e.id err.message
        (e.attempts + 1) (due_at now (writeback_retry_delay err (e.attempts + 1))) limit before
        clock h)
