-- ===== src/Sync/Poll.antt =====
-- The poller: what the listing of one directory does to its nodes and rows. pollRecursive of
-- internal/mount/syncer/poller.go, without the requests, the descent into the directories below and
-- the log; NewFileNode and NewDirNode of internal/mount/vfs/node.go. A node has the fields that the
-- poller reads. Times are nanoseconds.
pub mod Twice
pub mod Marked
pub mod Pruned
use pigcloud_cli.Common.{
  ℕ, ◌+◌, ◌/◌, String, List, [], ◌∷◌, ◌++◌, Bool, true, false, not, ◌&&◌, ◌||◌, Option, none, some,
  ltb, ◌==◌, same, is_empty, if◌then◌else◌, keep, any, lookup, insert,
}
use pigcloud_cli.Retry.{second}
use pigcloud_cli.Cache.{Status, synced, conflict, Inode, download_failure, Db, status_is}
use pigcloud_cli.Cache.Inodes.{
  get_inode, upsert_inode, set_sync_status, invalidate_cache, set_remote_version, delete_inode,
}
use pigcloud_cli.Cache.Failures.{clear_sync_failure}
use pigcloud_cli.Cache.Blobs.{Store}
use pigcloud_cli.Cache.Evict.{Machine, release_blob}
use pigcloud_cli.Sync.Names.{is_excluded_dir, is_safe_name, join_path}

-- vfs.Node
pub record Node : Type 0 where
  pub id : ℕ
  pub name : String
  pub remote_path : String
  pub is_dir : Bool
  pub size : ℕ
  pub mtime : ℕ
  pub etag : String
  pub cached : Bool
  pub dirty : Bool
  pub content_hash : String
  pub status : Status
  pub reason : String

-- api.ListEntry: the sealed display name, the plaintext size and the time of the change, where they
-- are given and can be parsed
pub record ListEntry : Type 0 where
  pub sealed_name : String
  pub is_dir : Bool
  pub size : Option ℕ
  pub modified : Option ℕ
  pub etag : String

-- The directory's nodes by name, the database, the store, and the paths given to localDelete.
pub record State : Type 0 where
  pub children : List (String × Node)
  pub db : Db
  pub store : Option Store
  pub deleted : List String

-- What base64 and UnsealDisplayName make of a sealed name, and isSafeNamePlatform.
pub record Names : Type 0 where
  pub unseal : String → Option String
  pub platform : String → Bool

abbrev safe_or_encrypted : Names → Option String → String
safe_or_encrypted c none = "(encrypted)"
safe_or_encrypted c (some name) = if is_safe_name c.platform name then name else "(encrypted)"

-- decryptName
unfoldable pub decrypt_name : Names → String → String
decrypt_name c sealed = if is_empty sealed then "" else safe_or_encrypted c (c.unseal sealed)

-- the entries by name, and whether one could not be decrypted
unfoldable pub collect :
    Names → List ListEntry → List (String × ListEntry) × Bool → List (String × ListEntry) × Bool
collect c [] acc = acc
collect c (e ∷ es) (found, failed) =
    let name = decrypt_name c e.sealed_name in
    collect c es (
      if same name "(encrypted)" || (is_empty name && not (is_empty e.sealed_name))
      then (found, true)
      else if is_empty name || is_excluded_dir name
      then (found, failed)
      else (insert name e found, failed))

abbrev row_dirty : Option Inode → Bool
row_dirty none = false
row_dirty (some r) = r.dirty

-- locallyDirty
abbrev pub locally_dirty : Db → Node → Bool
locally_dirty d n = n.dirty || row_dirty (get_inode d n.id)

abbrev pub size_changed : Node → Option ℕ → Bool
size_changed n none = false
size_changed n (some size) = not (size == n.size)

abbrev pub mtime_advanced : Node → Option ℕ → Bool
mtime_advanced n none = false
mtime_advanced n (some t) = ltb n.mtime t

-- remoteChanged
unfoldable pub remote_changed : Node → ListEntry → Bool
remote_changed n e =
    let etag_changed = not (same n.etag e.etag) in
    if not (is_empty n.etag) && not (is_empty e.etag)
    then etag_changed
    else size_changed n e.size || (mtime_advanced n e.modified || etag_changed)

abbrev pub or_else : ℕ → Option ℕ → ℕ
or_else old none = old
or_else old (some new) = new

abbrev pub pending_edits : String
pending_edits = "remote changed while local edits pending"

-- the node, the database and the store
abbrev pub Seen : Type 0
Seen = Node × Db × Option Store

-- both sides changed: the node and its row are marked, once
unfoldable pub mark_conflict : Node → Db → Option Store → Seen
mark_conflict n d s = if status_is n.status conflict then (n, d, s) else (
  record n { status = conflict; reason = pending_edits },
  set_sync_status d n.id conflict pending_edits,
  s,
)

-- the remote alone changed: the cached content is dropped
unfoldable pub drop_cached : Machine → Node → ListEntry → Db → Option Store → Seen
drop_cached m n e d s =
    let d' = invalidate_cache d n.id in
    (
      record n { size = or_else n.size e.size; cached = false; content_hash = "" },
      clear_sync_failure d' n.id download_failure,
      release_blob m d' s n.content_hash n.id,
    )

-- the remote's time and version are taken over
abbrev pub take_over : ListEntry → Seen → Seen
take_over e (n, d, s) = (
  record n { mtime = or_else n.mtime e.modified; etag = e.etag },
  set_remote_version d n.id e.etag,
  s,
)

-- an entry whose name has a node
unfoldable pub poll_existing : Machine → Node → ListEntry → Db → Option Store → Seen
poll_existing m n e d s =
    if locally_dirty d n && remote_changed n e
    then mark_conflict n d s
    else take_over e (if remote_changed n e then drop_cached m n e d s else (n, d, s))

-- the directory that is polled
pub record Parent : Type 0 where
  pub id : ℕ
  pub remote_path : String

-- NewDirNode and NewFileNode; a directory's time is the present
abbrev pub new_node : Parent → String → ListEntry → ℕ → Node
new_node p name e now = record {
  id = 0;
  name = name;
  remote_path = join_path p.remote_path name;
  is_dir = e.is_dir;
  size = if e.is_dir then 0 else or_else 0 e.size;
  mtime = if e.is_dir then now else or_else now e.modified;
  etag = e.etag;
  cached = false;
  dirty = false;
  content_hash = "";
  status = synced;
  reason = "";
}

-- the row of a new node
abbrev pub new_row : Parent → Node → Inode
new_row p n = record {
  id = 0;
  remote_path = n.remote_path;
  display_name = n.name;
  is_dir = n.is_dir;
  size = n.size;
  mtime = n.mtime / second;
  cached = false;
  dirty = false;
  pinned = false;
  last_access = 0;
  content_hash = "";
  local_hash = "";
  local_mtime = 0;
  download_baseline_hash = "";
  sealed_key = "";
  enc_meta = "";
  etag = n.etag;
  local_remote_etag = "";
  parent_id = p.id;
  status = synced;
  reason = "";
}

abbrev pub seen_at : String → State → Seen → State
seen_at name st (n, d, s) = record st { children = insert name n st.children; db = d; store = s }

-- an entry whose name has no node
unfoldable pub poll_new : Parent → String → ListEntry → ℕ → State → State
poll_new p name e now st =
    let n = new_node p name e now in
    let (d, id) = upsert_inode st.db (new_row p n) in
    record st { children = insert name (record n { id = id }) st.children; db = d }

abbrev pub poll_named : Machine → Parent → String → ListEntry → ℕ → State → Option Node → State
poll_named m p name e now st none = poll_new p name e now st
poll_named m p name e now st (some n) = seen_at name st (poll_existing m n e st.db st.store)

-- the loop over the remote entries; `old` are the nodes from before it
unfoldable pub poll_entries :
    Machine → Parent → List (String × Node) → ℕ → List (String × ListEntry) → State → State
poll_entries m p old now [] st = st
poll_entries m p old now ((name, e) ∷ es) st =
    poll_entries m p old now es (poll_named m p name e now st (lookup name old))

abbrev pub is_there {ℓ} : {A : Type ℓ} → Option A → Bool
is_there none = false
is_there (some a) = true

-- DetachChild, localDelete, ReleaseBlob and DeleteInode of a node that the server no longer has
unfoldable pub prune_one : Machine → State → String → Node → State
prune_one m st name n = record {
  children = keep (λ c. not (same c.0 name)) st.children;
  db = delete_inode st.db n.remote_path;
  store = release_blob m st.db st.store n.content_hash n.id;
  deleted = st.deleted ++ n.remote_path ∷ [];
}

-- the loop over the nodes from before
unfoldable pub prune : Machine → List (String × ListEntry) → List (String × Node) → State → State
prune m found [] st = st
prune m found ((name, n) ∷ ns) st = prune m found ns (
    if is_there (lookup name found)
    then st
    else if locally_dirty st.db n
    then st
    else prune_one m st name n)

-- one directory: its listing, and its nodes from before
unfoldable pub poll_dir : Machine → Names → Parent → ℕ → List ListEntry → State → State
poll_dir m c p now listing st =
    let (found, failed) = collect c listing ([], false) in
    let polled = poll_entries m p st.children now found st in
    if failed then polled else prune m found st.children polled
