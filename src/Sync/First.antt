-- ===== src/Sync/First.antt =====
-- The first synchronization of a mount: InitialSync of internal/mount/syncer/downloader.go, with
-- cleanupStaleEntries, walkAndSync at a file, and scanLocalNewFiles; First/Populate has the listing of
-- the remote tree. The directories that walkAndSync makes are left out. Times are in nanoseconds.
pub mod Populate
pub mod Scanned
pub mod Populated
pub mod Spared
use pigcloud_cli.Common.{
  ℕ, suc, ◌/◌, String, List, [], ◌∷◌, Bool, true, false, not, ◌&&◌, ◌||◌, Option, none, some,
  is_empty, if◌then◌else◌,
}
use pigcloud_cli.Retry.{second}
use pigcloud_cli.Cache.{
  synced, pending, rejected, failed, Inode, download_failure, Action, upload, mkdir, Db, status_is,
}
use pigcloud_cli.Cache.Inodes.{get_inode_by_path, upsert_inode, set_sync_status, delete_inode}
use pigcloud_cli.Cache.Queue.{delete_writeback_by_inode, delete_failed_writebacks}
use pigcloud_cli.Cache.Failures.{clear_sync_failure, delete_sync_failures, list_issues}
use pigcloud_cli.Cache.Blobs.{Store}
use pigcloud_cli.Sync.Names.{Refusal, validate_file, to_remote}
use pigcloud_cli.Sync.Reconcile.{Setting, Info, LocalEntry, new_inode, new_file, enqueue}
use pigcloud_cli.Sync.Reconcile.Walk.{Tree, Trees, node, nil, cons, skipped, has_own_path}
use pigcloud_cli.Sync.Poll.{Node, Names, Parent}
use Populate.{Remote, populate_remote_tree}
use pigcloud_cli.Sync.Download.{
  State, Attempt, conflicted, inode_dirty, local_baseline, download_file, no_baseline,
}
use pigcloud_cli.Sync.Download.Visiting.{Copy, local_copy_matches, protect_local_collision, settle}

-- a row of which nothing is left to synchronize; `on_disk` says which paths the folder has
abbrev pub is_stale : (String → Bool) → Inode → Bool
is_stale on_disk r =
    is_empty r.remote_path
    || ((status_is r.status failed || status_is r.status rejected) && not (on_disk r.remote_path))

unfoldable pub forget : Db → Inode → Db
forget d r =
    delete_inode (delete_sync_failures (delete_writeback_by_inode d r.id) r.id) r.remote_path

-- the loop of cleanupStaleEntries, with its count
unfoldable pub clean_each : (String → Bool) → Db × ℕ → List Inode → Db × ℕ
clean_each on_disk acc [] = acc
clean_each on_disk (d, n) (r ∷ rs) =
    clean_each on_disk (if is_stale on_disk r then (forget d r, suc n) else (d, n)) rs

-- cleanupStaleEntries
unfoldable pub cleanup_stale_entries : (String → Bool) → Db → Db × ℕ
cleanup_stale_entries on_disk d =
    let d' = (delete_failed_writebacks d).0 in clean_each on_disk (d', 0) (list_issues d')

abbrev pub unless_kept : Setting → Attempt → ℕ → State × Bool → State
unless_kept s a now (st, true) = st
unless_kept s a now (st, false) = settle (download_file s.machine st a now) now

abbrev pub met_first : Setting → State → Attempt → ℕ → ℕ → Option Copy → State
met_first s st a parent now none = settle (download_file s.machine st a now) now
met_first s st a parent now (some c) =
    if inode_dirty st.db st.node.id
    then (if is_empty (local_baseline st.db st.node.id) then conflicted st no_baseline else st)
    else if local_copy_matches st.db st.node c
    then record st {
      node = record st.node { cached = true };
      db =
          clear_sync_failure (set_sync_status st.db st.node.id synced "") st.node.id
            download_failure;
    }
    else unless_kept s a now (protect_local_collision s st c parent (now / second))

-- A file of the remote tree, and what its visit meets.
pub record Visit : Type 0 where
  pub file : Node
  pub attempt : Attempt
  pub parent : ℕ
  pub copy : Option Copy

-- walkAndSync at the files
unfoldable pub sync_files : Setting → ℕ → List Visit → Db × Option Store → Db × Option Store
sync_files s now [] c = c
sync_files s now (v ∷ vs) (d, t) =
    let st : State = record { node = v.file; db = d; store = t; published = false } in
    let st' = met_first s st v.attempt v.parent now v.copy in
    sync_files s now vs (st'.db, st'.store)

-- a file of the folder that has no row, with what ValidateFile says
abbrev pub tracked_as : Setting → Db → String → LocalEntry → Info → ℕ → Option Refusal → Db
tracked_as s d path e f now (some why) =
    (upsert_inode d (new_file path e f rejected (s.wording why))).0
tracked_as s d path e f now none =
    let (d', id) = upsert_inode d (new_file path e f pending "") in
    enqueue d' id upload path now e.fresh

abbrev pub tracked : Setting → Db → String → LocalEntry → ℕ → Option Info → Db
tracked s d path e now none = d
tracked s d path e now (some f) = tracked_as s d path e f now (validate_file s.types e.name f.size)

abbrev pub scan_entry : Setting → Db → String → LocalEntry → ℕ → Option Inode → Db
scan_entry s d path e now (some i) = d
scan_entry s d path e now none =
    if e.is_dir
    then (let (d', id) = upsert_inode d (new_inode path e.name true 0 now false pending "") in
        enqueue d' id mkdir path now e.fresh)
    else tracked s d path e now e.info

-- the function of scanLocalNewFiles at an entry, less its counts; `now` is in seconds
abbrev pub scanned : Setting → String → ℕ → LocalEntry → Db → Db
scanned s base now e d =
    let path = to_remote base e.rel in
    if has_own_path base e then scan_entry s d path e now (get_inode_by_path d path) else d

-- scanLocalNewFiles
unfoldable mutual
  pub scan : Setting → String → ℕ → Tree → Db → Db
  scan s base now (node e below) d = elim (skipped e) [
    | true ↦ d
    | false ↦ scan_all s base now below (scanned s base now e d)
  ]

  pub scan_all : Setting → String → ℕ → Trees → Db → Db
  scan_all s base now nil d = d
  scan_all s base now (cons t ts) d = scan_all s base now ts (scan s base now t d)

-- What a first synchronization meets: the names' seals, which paths the folder has, the root of the
-- remote tree and what the listing meets there, the files that the walk visits, whether the walk is
-- cut short by its context, and the folder's files.
pub record Course : Type 0 where
  pub names : Names
  pub on_disk : String → Bool
  pub root : Parent
  pub remote : Remote
  pub visits : List Visit
  pub cut : Bool
  pub folder : Tree

-- the part after the listing, if that succeeded
abbrev pub after_listing : Setting → String → ℕ → Course → Option Store → Db × Bool → Db
after_listing s base now c store (d, false) = d
after_listing s base now c store (d, true) =
    let d' = (sync_files s now c.visits (d, store)).0 in
    if c.cut then d' else scan s base (now / second) c.folder d'

-- InitialSync
unfoldable pub initial_sync : Setting → String → ℕ → Course → Db → Option Store → Db
initial_sync s base now c d store =
    after_listing s base now c store
      (populate_remote_tree c.names now c.remote c.root (cleanup_stale_entries c.on_disk d).0)
