-- ===== src/Sync/Download.antt =====
-- The downloader on one file: whether it is fetched, and what a download does to the local file, the
-- node, the database and the store. internal/mount/syncer/downloader.go and downloader_local.go,
-- without the walk over the tree, the semaphore, the activity log and the suppressed paths. A node
-- has the fields of Sync/Poll.
pub mod Guarded
pub mod Edits
pub mod Due
pub mod Visiting
use pigcloud_cli.Common.{
  ℕ, ◌+◌, ◌/◌, String, Bool, true, false, not, ◌&&◌, ◌||◌, Option, none, some, ltb, leb, ◌==◌, same,
  is_empty, if◌then◌else◌,
}
use pigcloud_cli.Retry.{second, Failure, transfer_backoff}
use pigcloud_cli.Cache.{
  synced, pending, rejected, failed, conflict, Inode, SyncFailure, download_failure, upload, Db,
}
use pigcloud_cli.Cache.Inodes.{
  get_inode, upsert_inode, mark_cached, set_inode_size, set_local_content, set_sync_status,
  set_local_content_for_version, mark_local_conflict, invalidate_cache, ContentState,
  local_content_state,
}
use pigcloud_cli.Cache.Failures.{get_sync_failure, record_sync_failure, clear_sync_failure}
use pigcloud_cli.Cache.Blobs.{Store}
use pigcloud_cli.Cache.Evict.{Machine, release_blob}
use pigcloud_cli.Sync.Names.{Refusal, validate_file}
use pigcloud_cli.Sync.Writeback.{due_at}
use pigcloud_cli.Sync.Reconcile.{Setting, new_inode, enqueue}
use pigcloud_cli.Sync.Poll.{Node}

-- the node, the database, the store, and whether the local file was replaced
pub record State : Type 0 where
  pub node : Node
  pub db : Db
  pub store : Option Store
  pub published : Bool

-- localDownloadState, and the error of readLocalDownloadState: what os.SameFile compares, the hash,
-- the time and the size
pub record LocalFile : Type 0 where
  pub file_id : ℕ
  pub hash : String
  pub mtime : ℕ
  pub size : ℕ

pub data Reading : Type 0 where
  unreadable missing : Reading
  there : LocalFile → Reading

-- sameLocalDownloadState, of files that can be read
abbrev pub same_reading : Reading → Reading → Bool
same_reading missing missing = true
same_reading (there a) (there b) =
    a.file_id == b.file_id && same a.hash b.hash && a.mtime == b.mtime && a.size == b.size
same_reading missing (there b) = false
same_reading (there a) missing = false
same_reading unreadable r = false
same_reading missing unreadable = false
same_reading (there a) unreadable = false

pub data Fetched : Type 0 where
  fetched : String → ℕ → Fetched
  fetch_failed : Failure → Fetched

-- What a download meets: the checks of the local path and the readings of the local file before and
-- after the fetch, what other parts of the program make of the database and the node's version
-- meanwhile, what is fetched (its hash and size), and which steps of the file system succeed.
pub record Attempt : Type 0 where
  pub safe_before : Bool
  pub before : Reading
  pub fetch : Fetched
  pub meanwhile : Db → Db
  pub etag_then : String
  pub safe_fetched : Bool
  pub dir_made : Bool
  pub staged : Bool
  pub safe_then : Bool
  pub after : Reading
  pub renamed : Bool
  pub etag_later : String
  pub local_mtime : ℕ
  pub unsafe_path : Failure
  pub oversize : Failure
  pub broken : Failure

pub data Result : Type 0 where
  saved local_changed remote_changed : Result
  lost : Failure → Result

abbrev pub dirty_row : Option Inode → Bool
dirty_row none = false
dirty_row (some i) = i.dirty

-- inodeDirty
unfoldable pub inode_dirty : Db → ℕ → Bool
inode_dirty d id = if id == 0 then false else dirty_row (get_inode d id)

abbrev baseline_of : Option ContentState → String
baseline_of none = ""
baseline_of (some c) = c.baseline

-- localBaseline
unfoldable pub local_baseline : Db → ℕ → String
local_baseline d id = baseline_of (local_content_state d id)

-- markLocalConflict
unfoldable pub conflicted : State → String → State
conflicted st why = record st {
  node = record st.node { dirty = true; cached = false; status = conflict; reason = why };
  db = clear_sync_failure (mark_local_conflict st.db st.node.id why) st.node.id download_failure;
}

-- reasons of a conflict
abbrev pub folder_changed : String
folder_changed = "local folder changed while remote content was downloading"

abbrev pub file_changed : String
file_changed = "local file changed while remote content was downloading"

abbrev pub changes_pending : String
changes_pending = "local file cannot be replaced while local changes are pending"

abbrev pub not_baseline : String
not_baseline = "local content differs from the synchronized baseline"

abbrev pub unverified : String
unverified = "local file could not be verified before downloading"

abbrev pub both_differ : String
both_differ = "local and remote content both differ from the synchronized baseline"

abbrev pub no_baseline : String
no_baseline = "local and remote files share a name without a synchronized content baseline"

abbrev pub is_other : Reading → String → Bool
is_other missing base = false
is_other unreadable base = true
is_other (there f) base = is_empty base || not (same f.hash base)

abbrev content_hash_of : Option Inode → String
content_hash_of none = ""
content_hash_of (some i) = i.content_hash

-- commitDownload with a remote version
unfoldable pub commit_download : Machine → State → ℕ → String → ℕ → String → ℕ → State
commit_download m st size hash mtime etag now =
    let id = st.node.id in
    let d =
      set_sync_status
        (set_local_content_for_version (set_inode_size (mark_cached st.db id "" now) id size) id
          hash mtime etag)
        id synced "" in
    record st {
      db = d;
      store = release_blob m d st.store (content_hash_of (get_inode st.db id)) id;
    }

-- downloadFile after the rename
unfoldable pub published_as : Machine → State → Attempt → String → ℕ → String → ℕ → State × Result
published_as m st a hash size etag now =
    let unchanged = same a.etag_later etag in
    let n = record st.node { cached = unchanged; size = size; etag = a.etag_later } in
    let st' =
      commit_download m (record st { node = n; published = true }) size hash a.local_mtime etag
        now in
    if unchanged
    then (st', saved)
    else (record st' { db = invalidate_cache st'.db n.id }, remote_changed)

-- validateDownloadPublication: the error, and the state that it leaves
abbrev pub validated : State → Attempt → String → State × Option Result
validated st a etag =
    if not (same st.node.etag etag)
    then (st, some remote_changed)
    else if not a.safe_then
    then (conflicted st folder_changed, some local_changed)
    else if not (same_reading a.before a.after) || inode_dirty st.db st.node.id
    then (conflicted st file_changed, some local_changed)
    else (st, none)

abbrev pub published :
    Machine → Attempt → String → ℕ → String → ℕ → State × Option Result → State × Result
published m a hash size etag now (st, some r) = (st, r)
published m a hash size etag now (st, none) =
    if not a.renamed then (st, lost a.broken) else published_as m st a hash size etag now

-- downloadFile once the content is fetched
unfoldable pub stored : Machine → State → Attempt → String → ℕ → String → ℕ → State × Result
stored m st a hash size etag now =
    if not a.safe_fetched
    then (conflicted st folder_changed, local_changed)
    else if not a.dir_made
    then (st, lost a.broken)
    else if not a.staged
    then (st, lost a.broken)
    else published m a hash size etag now (validated st a etag)

-- what others did during the fetch
abbrev pub overtaken : State → Attempt → State
overtaken st a = record st { node = record st.node { etag = a.etag_then }; db = a.meanwhile st.db }

abbrev pub received : Machine → State → Attempt → String → ℕ → Fetched → State × Result
received m st a etag now (fetched hash size) = stored m (overtaken st a) a hash size etag now
received m st a etag now (fetch_failed e) = (overtaken st a, lost e)

-- MaxInMemoryDownloadSize
abbrev pub max_in_memory : ℕ
max_in_memory = 629145600

abbrev pub is_unreadable : Reading → Bool
is_unreadable unreadable = true
is_unreadable missing = false
is_unreadable (there f) = false

-- downloadFile
unfoldable pub download_file : Machine → State → Attempt → ℕ → State × Result
download_file m st a now =
    let id = st.node.id in
    if not a.safe_before
    then (st, lost a.unsafe_path)
    else if is_unreadable a.before || inode_dirty st.db id
    then (conflicted st changes_pending, local_changed)
    else if is_other a.before (local_baseline st.db id)
    then (conflicted st not_baseline, local_changed)
    else if ltb max_in_memory st.node.size
    then (st, lost a.oversize)
    else received m st a st.node.etag now a.fetch
