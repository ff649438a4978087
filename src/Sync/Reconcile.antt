-- ===== src/Sync/Reconcile.antt =====
-- The reconciler: what a walk through the local folder queues. internal/mount/syncer/reconciler.go.
-- Times are in seconds. A row's id and path are those of its statement; the log is left out.
pub mod Edits
pub mod Queued
pub mod Healed
pub mod Edited
pub mod Walk
use pigcloud_cli.Common.{
  ℕ, ◌+◌, String, Bool, true, false, not, ◌&&◌, ◌||◌, Option, none, some, ltb, same, is_empty,
  if◌then◌else◌,
}
use pigcloud_cli.Cache.{
  Status, synced, pending, rejected, failed, conflict, offline, Inode, SyncFailure, upload_failure,
  download_failure, Action, upload, mkdir, Db,
}
use pigcloud_cli.Cache.Inodes.{
  get_inode_by_path, upsert_inode, set_sync_status, set_local_content, mark_local_conflict,
  set_local_content_for_version, ContentState, local_content_state,
}
use pigcloud_cli.Cache.Queue.{
  enqueue_writeback, has_active_writeback, delete_failed_upload_writebacks,
}
use pigcloud_cli.Cache.Failures.{get_sync_failure}
use pigcloud_cli.Cache.Blobs.{Store}
use pigcloud_cli.Cache.Evict.{Machine, release_blob}
use pigcloud_cli.Sync.Names.{FileTypes, Refusal, validate_file, should_ignore, to_remote}

-- What the reconciler is given: the file types, the wording of a refusal, and the machine whose
-- files and counts may fail.
pub record Setting : Type 0 where
  pub types : FileTypes
  pub wording : Refusal → String
  pub machine : Machine

-- the database, and the content store if there is one
pub record State : Type 0 where
  pub db : Db
  pub store : Option Store

-- What entry.Info gives.
pub record Info : Type 0 where
  pub size : ℕ
  pub mtime : ℕ

-- An entry of the folder: its path from the folder on, whether no link leads out of the folder, what
-- Info and hashLocalFile give of it, and a fresh idempotency key.
pub record LocalEntry : Type 0 where
  pub rel : String
  pub name : String
  pub is_dir : Bool
  pub safe : Bool
  pub info : Option Info
  pub digest : Option String
  pub fresh : String

-- An Inode literal: the fields that it does not name are zero.
abbrev pub new_inode : String → String → Bool → ℕ → ℕ → Bool → Status → String → Inode
new_inode path name is_dir size mtime dirty status reason = record {
  id = 0;
  remote_path = path;
  display_name = name;
  is_dir = is_dir;
  size = size;
  mtime = mtime;
  cached = false;
  dirty = dirty;
  pinned = false;
  last_access = 0;
  content_hash = "";
  local_hash = "";
  local_mtime = 0;
  download_baseline_hash = "";
  sealed_key = "";
  enc_meta = "";
  etag = "";
  local_remote_etag = "";
  parent_id = 0;
  status = status;
  reason = reason;
}

abbrev or_same : Db → Option Db → Db
or_same d none = d
or_same d (some d') = d'

-- EnqueueWriteback with no extra JSON, its error dropped
unfoldable pub enqueue : Db → ℕ → Action → String → ℕ → String → Db
enqueue d inode a path now fresh =
    or_same d
      (enqueue_writeback d inode a path (record { idempotency_key = ""; target = "" }) now fresh)

abbrev pub set_db : State → Db → State
set_db st d = record st { db = d }

-- a new directory
unfoldable pub heal_dir : State → String → LocalEntry → Option Inode → ℕ → State × Bool
heal_dir st path e (some i) now = (st, false)
heal_dir st path e none now =
    let (d, id) = upsert_inode st.db (new_inode path e.name true 0 now false pending "") in
    (set_db st (enqueue d id mkdir path now e.fresh), true)

-- the row of a new file
abbrev pub new_file : String → LocalEntry → Info → Status → String → Inode
new_file path e f status reason = new_inode path e.name false f.size f.mtime true status reason

-- queueNewFile, with what ValidateFile says
unfoldable pub queue_validated :
    Setting → State → String → LocalEntry → Info → ℕ → Option Refusal → State × Bool
queue_validated s st path e f now (some why) =
    (set_db st (upsert_inode st.db (new_file path e f rejected (s.wording why))).0, false)
queue_validated s st path e f now none =
    let (d, id) = upsert_inode st.db (new_file path e f pending "") in
    (set_db st (enqueue d id upload path now e.fresh), true)

unfoldable pub queue_new_file : Setting → State → String → LocalEntry → Info → ℕ → State × Bool
queue_new_file s st path e f now =
    queue_validated s st path e f now (validate_file s.types e.name f.size)

-- the row that requeueUpload upserts
abbrev pub superseding : Inode → Info → Inode
superseding i f = record i {
  size = f.size;
  mtime = f.mtime;
  cached = false;
  content_hash = "";
  dirty = true;
  status = pending;
  reason = "";
}

-- requeueUpload, past its checks
unfoldable pub supersede : Setting → State → LocalEntry → Inode → Info → ℕ → State
supersede s st e i f now =
    let (d, id) = upsert_inode (delete_failed_upload_writebacks st.db i.id) (superseding i f) in
    let d' = set_local_content d id "" 0 in
    record {
      db = enqueue d' id upload i.remote_path now e.fresh;
      store = release_blob s.machine d' st.store i.content_hash id;
    }

-- requeueUpload
unfoldable pub requeue_upload : Setting → State → LocalEntry → Inode → Info → ℕ → State × Bool
requeue_upload s st e i f now = elim (validate_file s.types i.display_name f.size) [
  | some refusal ↦ (set_db st (set_sync_status st.db i.id rejected (s.wording refusal)), false)
  | none ↦
      if has_active_writeback st.db i.id upload
      then (st, false)
      else (supersede s st e i f now, true)
]

-- the latch of a failed upload: given up for good, or not due yet
abbrev pub upload_latched : Option SyncFailure → ℕ → Bool
upload_latched none now = false
upload_latched (some f) now = f.permanent || ltb now f.next_retry_at

abbrev pub is_there {ℓ} : {A : Type ℓ} → Option A → Bool
is_there none = false
is_there (some a) = true

-- the case StatusFailed
unfoldable pub heal_failed : Setting → State → LocalEntry → Inode → Info → ℕ → State × Bool
heal_failed s st e i f now =
    if upload_latched (get_sync_failure st.db i.id upload_failure) now
    then (st, false)
    else if not i.dirty && is_there (get_sync_failure st.db i.id download_failure)
    then (st, false)
    else requeue_upload s st e i f now

-- the local file is as it was: the baseline is recorded anew
abbrev pub settled : State → Inode → ContentState → Info → State
settled st i c f =
    if is_empty c.current
    then st
    else set_db st (set_local_content_for_version st.db i.id c.current f.mtime c.version)

abbrev pub marked : State → Inode → String → State
marked st i why = set_db st (mark_local_conflict st.db i.id why)

-- the server still has what the local content was synchronized with
abbrev pub remote_unchanged : ContentState → Inode → Bool
remote_unchanged c i = not (is_empty c.current) && not (is_empty i.etag) && same c.version i.etag

-- the case StatusSynced, with the content state and the digest of the local file
unfoldable pub heal_synced :
    Setting
    → State
    → LocalEntry
    → Inode
    → Info
    → ℕ
    → Option ContentState
    → Option String
    → State × Bool
heal_synced s st e i f now none digest = (st, false)
heal_synced s st e i f now (some c) digest =
    if is_empty c.baseline
    then (marked st i "local file has no synchronized content baseline", false)
    else elim digest [
      | none ↦ (st, false)
      | some sum ↦
          if same sum c.baseline
          then (settled st i c f, false)
          else if not (remote_unchanged c i)
          then (
            marked st i "local and remote content both differ from the synchronized baseline",
            false,
          )
          else requeue_upload s st e i f now
    ]

-- the case StatusPending
unfoldable pub heal_pending : State → String → LocalEntry → Inode → ℕ → State × Bool
heal_pending st path e i now =
    if has_active_writeback st.db i.id upload
    then (st, false)
    else (set_db st (enqueue st.db i.id upload path now e.fresh), false)

-- the switch on the row's status
unfoldable pub heal_row :
    Setting → State → String → LocalEntry → Inode → Info → ℕ → Status → State × Bool
heal_row s st path e i f now rejected = (st, false)
heal_row s st path e i f now conflict = (st, false)
heal_row s st path e i f now offline = (st, false)
heal_row s st path e i f now failed = heal_failed s st e i f now
heal_row s st path e i f now synced =
    heal_synced s st e i f now (local_content_state st.db i.id) e.digest
heal_row s st path e i f now pending = heal_pending st path e i now

abbrev pub heal_found :
    Setting → State → String → LocalEntry → Info → ℕ → Option Inode → State × Bool
heal_found s st path e f now none = queue_new_file s st path e f now
heal_found s st path e f now (some i) = heal_row s st path e i f now i.status

abbrev pub heal_file :
    Setting → State → String → LocalEntry → ℕ → Option Inode → Option Info → State × Bool
heal_file s st path e now row none = (st, false)
heal_file s st path e now row (some f) = heal_found s st path e f now row

-- healEntry, with whether it healed
unfoldable pub heal_entry : Setting → State → String → LocalEntry → ℕ → State × Bool
heal_entry s st path e now =
    if not e.safe
    then (st, false)
    else if e.is_dir
    then heal_dir st path e (get_inode_by_path st.db path) now
    else heal_file s st path e now (get_inode_by_path st.db path) e.info
