-- ===== src/Sync/Writeback.antt =====
-- What the writeback processor does to the database with the outcome of an entry: processEntry of
-- internal/mount/syncer/writeback.go. The nodes of the file system, the log and the callbacks are
-- left out. `now` is in nanoseconds, the tables' times are in seconds.
pub mod Settled
pub mod Attempts
pub mod Batches
use pigcloud_cli.Common.{
  ℕ, ◌+◌, ◌/◌, String, Bool, true, false, ◌&&◌, ◌||◌, Option, none, some, leb, if◌then◌else◌,
  is_empty,
}
use pigcloud_cli.Retry.{Failure, second, writeback_retry_delay}
use pigcloud_cli.Cache.{
  Status, failed, pending, conflict, Inode, upload_failure, Action, upload, delete, Entry, gave_up,
  waiting, Db, action_is, status_is,
}
use pigcloud_cli.Cache.Inodes.{
  get_inode, set_sync_status, mark_dirty, mark_synced, set_remote_version,
  set_local_content_for_version,
}
use pigcloud_cli.Cache.Queue.{
  enqueue_writeback, update_writeback, defer_writeback, delete_writeback,
}
use pigcloud_cli.Cache.Failures.{record_sync_failure, clear_sync_failure}

abbrev pub max_retries : ℕ
max_retries = 3

-- time.Now().Add(delay).Unix()
abbrev pub due_at : ℕ → ℕ → ℕ
due_at now delay = (now + delay) / second

-- What an entry's transfer gave, and what the processor finds of the local file afterwards:
-- `changed` where the node was written meanwhile or the local file differs, `missing` where it is
-- gone. `path` is the node's path, `fresh` an idempotency key.
pub record Uploaded : Type 0 where
  pub digest : String
  pub etag : String
  pub mtime : ℕ
  pub changed : Bool
  pub missing : Bool
  pub path : String
  pub fresh : String

pub data Outcome : Type 0 where
  failure : Failure → Outcome
  success : Uploaded → Outcome

-- the entry is given up, and a failed upload is latched
unfoldable pub give_up : Db → Entry → Failure → ℕ → ℕ → Db
give_up d e err attempts now =
    let d' =
      set_sync_status (update_writeback d e.id gave_up err.message attempts) e.inode_id failed
        err.message in
    if action_is e.action upload
    then record_sync_failure d' (record {
      inode_id = e.inode_id;
      kind = upload_failure;
      permanent = err.is_permanent;
      attempts = attempts;
      next_retry_at =
          if err.is_permanent then 0 else due_at now (writeback_retry_delay err attempts);
      last_error = err.message;
    })
    else d'

-- the branch of an entry that failed
unfoldable pub settle_failure : Db → Entry → Failure → ℕ → Db
settle_failure d e err now =
    if leb max_retries (e.attempts + 1) || err.is_permanent
    then give_up d e err (e.attempts + 1) now
    else defer_writeback (set_sync_status d e.inode_id pending err.message) e.id err.message
        (e.attempts + 1) (due_at now (writeback_retry_delay err (e.attempts + 1)))

-- recordUploaded with the confirmed etag
unfoldable pub record_uploaded : Db → Entry → Uploaded → Db
record_uploaded d e u =
    if is_empty u.digest
    then d
    else set_local_content_for_version (set_remote_version d e.inode_id u.etag) e.inode_id u.digest
        u.mtime u.etag

abbrev or_pending : ℕ → Db → Option Db → Db
or_pending inode d none = set_sync_status d inode pending "re-enqueue failed"
or_pending inode d (some d') = d'

-- MarkDirty, and the next entry for content that changed meanwhile
unfoldable pub enqueue_again : Db → Entry → Uploaded → ℕ → Db
enqueue_again d e u now =
    let d' = mark_dirty d e.inode_id in
    or_pending e.inode_id d' (
      enqueue_writeback d' e.inode_id (if u.missing then delete else upload) u.path
        (record { idempotency_key = ""; target = "" }) (now / second) u.fresh)

-- what an upload that succeeded does to the row and the queue
unfoldable pub settle_upload : Db → Entry → Uploaded → ℕ → Db
settle_upload d e u now =
    let d' = record_uploaded (clear_sync_failure d e.inode_id upload_failure) e u in
    if u.changed then enqueue_again d' e u now else mark_synced d' e.inode_id u.etag

-- the rest of processEntry, for an entry that succeeded
unfoldable pub settle_success : Db → Entry → Uploaded → ℕ → Db
settle_success d e u now =
    if action_is e.action upload
    then settle_upload (delete_writeback d e.id) e u now
    else mark_synced (delete_writeback d e.id) e.inode_id ""

unfoldable pub process_entry : Db → Entry → Outcome → ℕ → Db
process_entry d e (failure err) now = settle_failure d e err now
process_entry d e (success u) now = settle_success d e u now

-- An upload that was sealed to a retired key is tried once more.
unfoldable pub outcome_of : Entry → Outcome → Outcome → Outcome
outcome_of e (success u) again = success u
outcome_of e (failure err) again =
    if action_is e.action upload && err.seal_stale then again else failure err

abbrev in_conflict : Option Inode → Bool
in_conflict none = false
in_conflict (some i) = status_is i.status conflict

-- heldByConflict
unfoldable pub held_by_conflict : Db → Entry → Bool
held_by_conflict d e = action_is e.action upload && in_conflict (get_inode d e.inode_id)

-- one entry of requeue
unfoldable pub requeue : Db → Entry → Db
requeue d e = update_writeback d e.id waiting e.last_error e.attempts
