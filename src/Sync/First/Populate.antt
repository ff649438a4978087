-- ===== src/Sync/First/Populate.antt =====
-- The listing of the remote tree: populateRemoteTree of internal/mount/syncer/downloader.go, and
-- populateDir and nodeToInode of internal/mount/vfs/vfs.go. The requests, the descriptors that the
-- kernel has of a node and the log are left out. Times are nanoseconds.
use pigcloud_cli.Common.{
  ℕ, ◌*◌, ◌/◌, String, List, [], ◌∷◌, Bool, true, false, not, ◌&&◌, ◌||◌, Option, none, some, same,
  is_empty, if◌then◌else◌, keep, any, lookup, insert,
}
use pigcloud_cli.Retry.{second}
use pigcloud_cli.Cache.{synced, conflict, Inode, Db}
use pigcloud_cli.Cache.Inodes.{
  get_inode_by_path, upsert_inode, invalidate_cache, set_remote_version, mark_local_conflict,
}
use pigcloud_cli.Sync.Names.{is_excluded_dir, join_path}
use pigcloud_cli.Sync.Poll.{
  Node, ListEntry, Names, Parent, decrypt_name, locally_dirty, or_else, pending_edits,
}

-- nodeToInode; the columns that it does not set are zero, as are SealedKey and EncMeta of a new node
abbrev pub node_to_inode : Node → ℕ → Inode
node_to_inode n parent = record {
  id = 0;
  remote_path = n.remote_path;
  display_name = n.name;
  is_dir = n.is_dir;
  size = n.size;
  mtime = n.mtime / second;
  cached = n.cached;
  dirty = n.dirty;
  pinned = false;
  last_access = 0;
  content_hash = n.content_hash;
  local_hash = "";
  local_mtime = 0;
  download_baseline_hash = "";
  sealed_key = "";
  enc_meta = "";
  etag = n.etag;
  local_remote_etag = "";
  parent_id = parent;
  status = n.status;
  reason = n.reason;
}

-- The directory's nodes by name, the database, and the names that were seen.
pub record Filled : Type 0 where
  pub children : List (String × Node)
  pub db : Db
  pub seen : List String

abbrev pub has_new_version : Node → ListEntry → Bool
has_new_version n e = not (same n.etag e.etag)

-- an entry whose name has a node
unfoldable pub fill_existing : String → Node → ListEntry → Filled → Filled
fill_existing name n e f =
    let dirty = locally_dirty f.db n in
    if dirty && has_new_version n e
    then record f {
      children = insert name (record n { status = conflict; reason = pending_edits }) f.children;
      db = mark_local_conflict f.db n.id pending_edits;
    }
    else let drops = not dirty && has_new_version n e in
      record f {
        children =
            insert name
              (record n {
                cached = if drops then false else n.cached;
                etag = e.etag;
                size = or_else n.size e.size;
                mtime = or_else n.mtime e.modified;
              })
              f.children;
        db = set_remote_version (if drops then invalidate_cache f.db n.id else f.db) n.id e.etag;
      }

abbrev stored_size : Option Inode → ℕ
stored_size none = 0
stored_size (some r) = r.size

-- NewDirNode and NewFileNode, with the version of the entry
abbrev pub fresh_node : String → String → ListEntry → ℕ → Option Inode → Node
fresh_node name path e now prior = record {
  id = 0;
  name = name;
  remote_path = path;
  is_dir = e.is_dir;
  size = if e.is_dir then 0 else or_else (stored_size prior) e.size;
  mtime = if e.is_dir then now else or_else now e.modified;
  etag = e.etag;
  cached = false;
  dirty = false;
  content_hash = "";
  status = synced;
  reason = "";
}

-- the edit that the row of the path has is taken over
abbrev pub with_edit : Node → ListEntry → Option Inode → Node
with_edit n e none = n
with_edit n e (some r) =
    if r.dirty
    then record n {
      dirty = true;
      etag = r.etag;
      size = r.size;
      mtime = r.mtime * second;
      status = if not (same r.etag e.etag) then conflict else r.status;
      reason = if not (same r.etag e.etag) then pending_edits else r.reason;
    }
    else n

-- an entry whose name has no node
unfoldable pub fill_new : Parent → String → ListEntry → ℕ → Filled → Filled
fill_new p name e now f =
    let path = join_path p.remote_path name in
    let prior = get_inode_by_path f.db path in
    let n = with_edit (fresh_node name path e now prior) e prior in
    let (d, id) = upsert_inode f.db (node_to_inode n p.id) in
    record f { children = insert name (record n { id = id }) f.children; db = d }

abbrev pub fill_named : Parent → String → ListEntry → ℕ → Filled → Option Node → Filled
fill_named p name e now f none = fill_new p name e now f
fill_named p name e now f (some n) = fill_existing name n e f

abbrev pub is_skipped : String → Bool
is_skipped name = is_empty name || (same name "(encrypted)" || is_excluded_dir name)

abbrev pub fill_entry : Names → Parent → ListEntry → ℕ → Filled → Filled
fill_entry c p e now f =
    let name = decrypt_name c e.sealed_name in
    if is_skipped name
    then f
    else fill_named p name e now (record f { seen = name ∷ f.seen }) (lookup name f.children)

unfoldable pub fill_entries : Names → Parent → ℕ → List ListEntry → Filled → Filled
fill_entries c p now [] f = f
fill_entries c p now (e ∷ es) f = fill_entries c p now es (fill_entry c p e now f)

abbrev stays : List String → String × Node → Bool
stays seen (name, n) = any (λ s. same s name) seen || n.dirty

-- populateDir, where the request is answered
unfoldable pub populate_dir :
    Names → Parent → ℕ → List ListEntry → List (String × Node) → Db → List (String × Node) × Db
populate_dir c p now listing children d =
    let f = fill_entries c p now listing (record { children = children; db = d; seen = [] }) in
    (keep (stays f.seen) f.children, f.db)

-- What the walk meets at a directory: whether the context has ended, the directory's nodes and
-- whether they were loaded before, and the server's answer, which is none where the request fails.
pub record Met : Type 0 where
  pub ended : Bool
  pub loaded : Bool
  pub nodes : List (String × Node)
  pub answer : Option (List ListEntry)

-- The same for the directories below, by name, in the order in which they are visited.
mutual
  pub data Remote : Type 0 where
    met : Met → Below → Remote

  pub data Below : Type 0 where
    nothing_below : Below
    below : String → Remote → Below → Below

abbrev pub loaded_nodes :
    Names → Parent → ℕ → Met → Db → Option (List ListEntry) → (List (String × Node) × Db) × Bool
loaded_nodes c p now m d none = ((m.nodes, d), false)
loaded_nodes c p now m d (some listing) = (populate_dir c p now listing m.nodes d, true)

-- Readdir: the nodes, the database, and whether it succeeds
unfoldable pub read_dir : Names → Parent → ℕ → Met → Db → (List (String × Node) × Db) × Bool
read_dir c p now m d = if m.loaded then ((m.nodes, d), true) else loaded_nodes c p now m d m.answer

abbrev pub as_parent : Option Node → Option Parent
as_parent none = none
as_parent (some n) =
    if n.is_dir then some (record { id = n.id; remote_path = n.remote_path }) else none

-- what follows a directory's listing, and what follows a directory, where they succeed
abbrev pub after_read :
    (List (String × Node) → Db → Db × Bool) → (List (String × Node) × Db) × Bool → Db × Bool
after_read next ((nodes, d), true) = next nodes d
after_read next ((nodes, d), false) = (d, false)

abbrev pub after_tree : (Db → Db × Bool) → Db × Bool → Db × Bool
after_tree next (d, true) = next d
after_tree next (d, false) = (d, false)

-- populateRemoteTree: the database, and whether it succeeds
unfoldable mutual
  pub populate_remote_tree : Names → ℕ → Remote → Parent → Db → Db × Bool
  populate_remote_tree c now (met m bs) p d = elim m.ended [
    | true ↦ (d, false)
    | false ↦ after_read (populate_below c now bs) (read_dir c p now m d)
  ]

  pub populate_below : Names → ℕ → Below → List (String × Node) → Db → Db × Bool
  populate_below c now nothing_below nodes d = (d, true)
  populate_below c now (below name r bs) nodes d = elim (as_parent (lookup name nodes)) [
    | none ↦ populate_below c now bs nodes d
    | some p ↦ after_tree (populate_below c now bs nodes) (populate_remote_tree c now r p d)
  ]
