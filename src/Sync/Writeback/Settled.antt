-- ===== src/Sync/Writeback/Settled.antt =====
-- What the outcome of an entry leaves of the tries in the queue:
-- internal/mount/syncer/writeback.go.
use pigcloud_cli.Common.{
  ℕ, ◌+◌, ◌<◌, String, List, [], ◌∷◌, Bool, false, not, ◌||◌, ◌≡◌, refl, ◌/◌, subst, arith, leb,
  if◌then◌else◌, if_both, some, inl, inr, is_empty, Bool-cases, Option-cases, keep, All, All-keep,
  All-append,
}
use pigcloud_cli.Retry.{Failure, second}
use pigcloud_cli.Cache.{
  Action, upload, delete, rename, Extra, Entry, gave_up, upload_failure, Db, action_is,
}
use pigcloud_cli.Cache.Inodes.{
  set_sync_status, mark_dirty, mark_synced, set_remote_version, set_local_content_for_version,
}
use pigcloud_cli.Cache.Queue.{
  update, entry_id, is_gave_up, duplicates, enqueue_writeback, update_writeback, defer_writeback,
  delete_writeback,
}
use pigcloud_cli.Cache.Failures.{record_sync_failure, clear_sync_failure}
use pigcloud_cli.Sync.Writeback.{
  max_retries, Uploaded, settle_failure, record_uploaded, enqueue_again, settle_success,
  settle_upload, give_up,
}

-- An entry that has not been given up has tries left.
abbrev pub Tries : Entry → Type 0
Tries e = is_gave_up e ≡ false → e.attempts < max_retries

abbrev pub AllTries : Db → Type 0
AllTries d = All Tries d.queue

pub All-update :
    (P : Entry → Type 0) (p : Entry → Bool) (f : Entry → Entry)
    → ((e : Entry) → P e → P (f e))
    → (l : List Entry) → All P l
    → All P (update p f l)
unfolding update
All-update P p f h [] a = tt
All-update P p f h (e ∷ l) a = elim (Bool-cases (p e)) [
  | inl hit ↦ rw hit (h e a.0, All-update P p f h l a.1)
  | inr miss ↦ rw miss (a.0, All-update P p f h l a.1)
]

give_up-AllTries :
    (d : Db) (e : Entry) (err : Failure) (attempts now : ℕ)
    → AllTries d
    → AllTries (give_up d e err attempts now)
unfolding give_up set_sync_status update_writeback record_sync_failure
give_up-AllTries d e err attempts now h =
    let given_up =
      All-update Tries (entry_id e.id)
        (λ f. record f { status = gave_up; last_error = err.message; attempts = attempts })
        (λ f k live. absurd cc) d.queue h in
    elim (Bool-cases (action_is e.action upload)) [
      | inl uploads ↦ rw uploads given_up
      | inr other ↦ rw other given_up
    ]

pub settle_failure-AllTries :
    (d : Db) (e : Entry) (err : Failure) (now : ℕ)
    → AllTries d
    → AllTries (settle_failure d e err now)
unfolding settle_failure set_sync_status defer_writeback
settle_failure-AllTries d e err now h =
    elim (Bool-cases (leb max_retries (e.attempts + 1) || err.is_permanent)) [
      | inl over ↦ rw over (give_up-AllTries d e err (e.attempts + 1) now h)
      | inr left ↦
          rw left (All-update Tries (entry_id e.id) _ (λ f k live. ground (arith, left)) d.queue h)
    ]

pub record_uploaded-queue :
    (d : Db) (e : Entry) (u : Uploaded) → (record_uploaded d e u).queue ≡ d.queue
unfolding record_uploaded set_remote_version set_local_content_for_version
record_uploaded-queue d e u = elim (Bool-cases (is_empty u.digest)) [
  | inl no_digest ↦ rw no_digest refl
  | inr digest ↦ rw digest refl
]

some-injective : {d d' : Db} → some d ≡ some d' → d ≡ d'
some-injective h = cc

fresh_tries : false ≡ false → 0 < max_retries
fresh_tries live = omega arith

pub enqueue_writeback-AllTries :
    (d d' : Db) (inode : ℕ) (a : Action) (path : String) (x : Extra) (now : ℕ) (fresh : String)
    → AllTries d
    → enqueue_writeback d inode a path x now fresh ≡ some d'
    → AllTries d'
unfolding enqueue_writeback
enqueue_writeback-AllTries d d' inode a path x now fresh h e =
    elim (Bool-cases d.writeback_disabled) [
      | inl disabled ↦ absurd (cc (rw disabled at e))
      | inr enabled ↦ elim (Bool-cases (action_is a rename)) [
        | inl renames ↦
            subst AllTries (some-injective (rw (enabled, renames) at e))
              (All-append Tries d.queue _ h (fresh_tries, tt))
        | inr other ↦ subst AllTries (some-injective (rw (enabled, other) at e)) (
            All-append Tries (keep (λ f. not (duplicates inode a f)) d.queue) _
              (All-keep Tries (λ f. not (duplicates inode a f)) d.queue h) (fresh_tries, tt))
      ]
    ]

enqueue_again-AllTries :
    (d : Db) (e : Entry) (u : Uploaded) (now : ℕ) → AllTries d → AllTries (enqueue_again d e u now)
unfolding enqueue_again
enqueue_again-AllTries d e u now h =
    let a = if u.missing then delete else upload in
    let x : Extra = record { idempotency_key = ""; target = "" } in
    elim (Option-cases
      (enqueue_writeback (mark_dirty d e.inode_id) e.inode_id a u.path x (now / second) u.fresh)) [
        | inl refused ↦ rw (refused, enqueue_again) (unfold set_sync_status mark_dirty in h)
        | inr (d', done) ↦
            rw (done, enqueue_again)
              (enqueue_writeback-AllTries (mark_dirty d e.inode_id) d' e.inode_id a u.path x
                (now / second) u.fresh (unfold mark_dirty in h) done)
      ]

pub settle_success-AllTries :
    (d : Db) (e : Entry) (u : Uploaded) (now : ℕ) → AllTries d → AllTries (settle_success d e u now)
unfolding settle_success settle_upload delete_writeback mark_synced clear_sync_failure
settle_success-AllTries d e u now h =
    let kept = All-keep Tries (λ f. not (entry_id e.id f)) d.queue h in
    elim (Bool-cases (action_is e.action upload)) [
      | inr other ↦ rw other kept
      | inl uploads ↦
          let d' =
            record_uploaded (clear_sync_failure (delete_writeback d e.id) e.inode_id upload_failure)
              e u in
          let kept' : AllTries d' = rw (record_uploaded-queue _ e u) kept in
          rw uploads (
            if_both AllTries u.changed (enqueue_again d' e u now) (mark_synced d' e.inode_id u.etag)
              (enqueue_again-AllTries d' e u now kept') kept')
    ]
