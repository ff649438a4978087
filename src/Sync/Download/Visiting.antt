-- ===== src/Sync/Download/Visiting.antt =====
-- What a visit of the downloader at a file decides: whether it is fetched, kept as it is, or queued for
-- an upload, and what is recorded of a failure. walkForDownloads, localCopyMatches,
-- protectLocalCollision, enqueueLocalUpload, recordDownloadFailure and downloadDue of
-- internal/mount/syncer/downloader.go and downloader_local.go.
use pigcloud_cli.Common.{
  ℕ, ◌+◌, ◌/◌, String, Bool, true, false, not, ◌&&◌, ◌||◌, Option, none, some, leb, ◌==◌, same,
  is_empty, if◌then◌else◌,
}
use pigcloud_cli.Retry.{second, Failure, transfer_backoff}
use pigcloud_cli.Cache.{
  synced, pending, rejected, failed, Inode, SyncFailure, download_failure, upload, Db,
}
use pigcloud_cli.Cache.Inodes.{
  get_inode, upsert_inode, set_local_content, set_sync_status, ContentState, local_content_state,
}
use pigcloud_cli.Cache.Failures.{get_sync_failure, record_sync_failure, clear_sync_failure}
use pigcloud_cli.Sync.Names.{Refusal, validate_file}
use pigcloud_cli.Sync.Writeback.{due_at}
use pigcloud_cli.Sync.Reconcile.{Setting, new_inode, enqueue}
use pigcloud_cli.Sync.Poll.{Node}
use pigcloud_cli.Sync.Download.{
  State, Attempt, Result, lost, inode_dirty, local_baseline, conflicted, unverified, both_differ,
  no_baseline, download_file, saved, local_changed, remote_changed,
}

abbrev pub tried_before : Option SyncFailure → ℕ
tried_before none = 0
tried_before (some f) = f.attempts

-- recordDownloadFailure of any other error than the two of a change; `now` is in nanoseconds
unfoldable pub record_download_failure : Db → ℕ → Failure → ℕ → Db
record_download_failure d id e now =
    let attempts = tried_before (get_sync_failure d id download_failure) + 1 in
    if id == 0 || e.canceled
    then d
    else if e.is_permanent
    then record_sync_failure (set_sync_status d id failed e.message) (record {
      inode_id = id;
      kind = download_failure;
      permanent = true;
      attempts = attempts;
      next_retry_at = 0;
      last_error = e.message;
    })
    else record_sync_failure d (record {
      inode_id = id;
      kind = download_failure;
      permanent = false;
      attempts = attempts;
      next_retry_at = due_at now (transfer_backoff attempts);
      last_error = e.message;
    })

abbrev pub is_due : Option SyncFailure → ℕ → Bool
is_due none now = true
is_due (some f) now = if f.permanent then false else leb f.next_retry_at now

-- downloadDue, at a time in seconds
unfoldable pub download_due : Db → ℕ → ℕ → Bool
download_due d id now =
    if id == 0 then true else is_due (get_sync_failure d id download_failure) now

-- what dispatchDownload's callback does with the result
unfoldable pub settle : State × Result → ℕ → State
settle (st, saved) now = record st { db = clear_sync_failure st.db st.node.id download_failure }
settle (st, local_changed) now = st
settle (st, remote_changed) now = st
settle (st, lost e) now = record st { db = record_download_failure st.db st.node.id e now }

-- What os.Stat and hashLocalFile give of the local file, and a fresh idempotency key.
pub record Copy : Type 0 where
  pub name : String
  pub size : ℕ
  pub mtime : ℕ
  pub digest : Option String
  pub fresh : String

abbrev pub local_hash_of : Option Inode → String
local_hash_of none = ""
local_hash_of (some i) = i.local_hash

abbrev version_of : Option ContentState → String
version_of none = ""
version_of (some c) = c.version

abbrev has_digest : Option String → String → Bool
has_digest none hash = false
has_digest (some sum) hash = same sum hash

-- localCopyMatches
unfoldable pub local_copy_matches : Db → Node → Copy → Bool
local_copy_matches d n c =
    let hash = local_hash_of (get_inode d n.id) in
    if not (c.size == n.size)
    then false
    else if n.id == 0 || is_empty n.etag
    then false
    else if is_empty hash
    then false
    else if not (same (version_of (local_content_state d n.id)) n.etag)
    then false
    else has_digest c.digest hash

-- enqueueLocalUpload with what ValidateFile says; `parent` is the id of the node's parent
abbrev pub upload_row : Setting → Node → Copy → ℕ → Option Refusal → Inode
upload_row s n c parent none =
    record (new_inode n.remote_path n.name false c.size c.mtime true pending "") {
      parent_id = parent;
    }
upload_row s n c parent (some why) =
    record (new_inode n.remote_path n.name false c.size c.mtime true rejected (s.wording why)) {
      parent_id = parent;
    }

abbrev pub queued : Db → ℕ → String → ℕ → String → Option Refusal → Db
queued d id path now fresh none = enqueue d id upload path now fresh
queued d id path now fresh (some why) = d

-- enqueueLocalUpload; `now` is in seconds
unfoldable pub enqueue_local_upload : Setting → State → Copy → ℕ → ℕ → State
enqueue_local_upload s st c parent now =
    let refusal = validate_file s.types c.name c.size in
    let (d, id) = upsert_inode st.db (upload_row s st.node c parent refusal) in
    record st {
      node = record st.node { dirty = true; cached = false; size = c.size; id = id };
      db = queued (set_local_content d id "" 0) id st.node.remote_path now c.fresh refusal;
    }

-- whether the synchronized version is the one on the server
abbrev pub is_current : State → Bool
is_current st =
    not (is_empty st.node.etag)
    && same (version_of (local_content_state st.db st.node.id)) st.node.etag

-- protectLocalCollision past the edited row and the missing baseline
abbrev pub collided : Setting → State → Copy → ℕ → ℕ → Option String → State × Bool
collided s st c parent now none = (conflicted st unverified, true)
collided s st c parent now (some hash) =
    if same hash (local_baseline st.db st.node.id)
    then (st, false)
    else if is_current st
    then (enqueue_local_upload s st c parent now, true)
    else (conflicted st both_differ, true)

-- protectLocalCollision, with whether it protects the local file
unfoldable pub protect_local_collision : Setting → State → Copy → ℕ → ℕ → State × Bool
protect_local_collision s st c parent now =
    if inode_dirty st.db st.node.id
    then (st, true)
    else if is_empty (local_baseline st.db st.node.id)
    then (conflicted st no_baseline, true)
    else collided s st c parent now c.digest

-- a download, where it is due
abbrev pub fetch_due : Setting → State → Attempt → ℕ → State
fetch_due s st a now =
    if download_due st.db st.node.id (now / second)
    then settle (download_file s.machine st a now) now
    else st

abbrev pub unless_protected : Setting → Attempt → ℕ → State × Bool → State
unless_protected s a now (st, true) = st
unless_protected s a now (st, false) = fetch_due s st a now

abbrev pub met : Setting → State → Attempt → ℕ → ℕ → Option Copy → State
met s st a parent now none = fetch_due s st a now
met s st a parent now (some c) =
    if local_copy_matches st.db st.node c
    then record st {
      node = record st.node { cached = true };
      db =
          set_sync_status (clear_sync_failure st.db st.node.id download_failure) st.node.id synced
            "";
    }
    else unless_protected s a now (protect_local_collision s st c parent (now / second))

-- walkForDownloads at a file, with its download; `now` is in nanoseconds
unfoldable pub visit : Setting → State → Attempt → ℕ → ℕ → Option Copy → State
visit s st a parent now copy =
    if st.node.cached || st.node.dirty || inode_dirty st.db st.node.id
    then st
    else met s st a parent now copy
