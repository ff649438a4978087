-- ===== src/Sync/First/Spared.antt =====
-- What the first synchronization leaves: internal/mount/syncer/downloader.go.
use pigcloud_cli.Common.{
  ◌⊎◌, ◌≢◌, is_empty-false, if_both, ℕ, suc, ◌/◌, String, List, [], ◌∷◌, Bool, true, false, not,
  ◌≡◌, refl, ◌∙◌, inl, inr, Option, none, some, arith, same, same_iff, keep, is_empty, All,
  Bool-cases,
}
use pigcloud_cli.Retry.{second}
use pigcloud_cli.Cache.{
  Status, synced, pending, conflict, failed, rejected, offline, Inode, download_failure, Db,
  status_is,
}
use pigcloud_cli.Cache.Inodes.{find, has_path, get_inode_by_path, set_sync_status, delete_inode}
use pigcloud_cli.Cache.Queue.{delete_writeback_by_inode, delete_failed_writebacks}
use pigcloud_cli.Cache.Failures.{delete_sync_failures, clear_sync_failure, list_issues}
use pigcloud_cli.Cache.Failures.Listed.{All-list_issues}
use pigcloud_cli.Cache.Inodes.Candidates.{All-weaken}
use pigcloud_cli.Cache.Blobs.{Store}
use pigcloud_cli.Sync.Kept.{Keeps, Keeps-refl, Keeps-trans, set_sync_status-Keeps}
use pigcloud_cli.Sync.Reconcile.{Setting}
use pigcloud_cli.Sync.Download.{
  State, Attempt, conflicted, inode_dirty, local_baseline, no_baseline,
}
use pigcloud_cli.Sync.Download.Visiting.{Copy, local_copy_matches, protect_local_collision}
use pigcloud_cli.Sync.Download.Edits.{
  protect_local_collision-Keeps, conflicted-Keeps, clear_sync_failure-Keeps, settled-Keeps,
}
use pigcloud_cli.Sync.First.Populate.{populate_remote_tree}
use pigcloud_cli.Sync.First.Scanned.{scan-Keeps}
use pigcloud_cli.Sync.First.Populated.{populate_remote_tree-Keeps}
use pigcloud_cli.Sync.First.{
  is_stale, forget, clean_each, cleanup_stale_entries, met_first, unless_kept, Visit, sync_files,
  scan, Course, after_listing, initial_sync,
}

-- The path is the table's key: every row is the one that its path finds.
abbrev pub OnePath : Db → Type 0
OnePath d = All (λ x. get_inode_by_path d x.remote_path ≡ some x) d.inodes

find-other :
    (path other : String) (l : List Inode)
    → same other path ≡ false
    → find (has_path path) (keep (λ r. not (has_path other r)) l) ≡ find (has_path path) l
unfolding find
find-other path other [] h = refl
find-other path other (r ∷ l) h = ground (
  arith,
  h,
  find-other path other l h,
  same_iff r.remote_path path,
  same_iff r.remote_path other,
  same_iff other path,
)

forget-other :
    (d : Db) (r : Inode) (path : String)
    → same r.remote_path path ≡ false
    → get_inode_by_path (forget d r) path ≡ get_inode_by_path d path
unfolding forget get_inode_by_path delete_inode delete_sync_failures delete_writeback_by_inode
forget-other d r path h = find-other path r.remote_path d.inodes h

-- No row of the path is stale.
abbrev Safe : (String → Bool) → String → List Inode → Type 0
Safe on_disk path l = All (λ x. same x.remote_path path ≡ true → is_stale on_disk x ≡ false) l

clean_each-other :
    (on_disk : String → Bool) (path : String) (l : List Inode) (acc : Db × ℕ)
    → Safe on_disk path l
    → get_inode_by_path (clean_each on_disk acc l).0 path ≡ get_inode_by_path acc.0 path
unfolding clean_each
clean_each-other on_disk path [] acc safe = refl
clean_each-other on_disk path (r ∷ l) (d, n) safe = elim (Bool-cases (is_stale on_disk r)) [
  | inl stale ↦ rw stale (
      clean_each-other on_disk path l (forget d r, suc n) safe.1
      ∙ forget-other d r path (ground (arith, stale, safe.0)))
  | inr fresh ↦ rw fresh (clean_each-other on_disk path l (d, n) safe.1)
]

-- A row that is not stale is the only one of its path, so the path has no stale row.
safe_path :
    (on_disk : String → Bool) (d : Db) (path : String) (r : Inode)
    → get_inode_by_path d path ≡ some r
    → is_stale on_disk r ≡ false
    → (x : Inode) → get_inode_by_path d x.remote_path ≡ some x
    → same x.remote_path path ≡ true
    → is_stale on_disk x ≡ false
safe_path on_disk d path r there fresh x own hit =
    let at_path : get_inode_by_path d x.remote_path ≡ some r =
      rw ((same_iff x.remote_path path).0 hit) there in
    let same_row : x ≡ r = cc in rw same_row fresh

cleanup-spares :
    (on_disk : String → Bool) (d : Db) (path : String) (r : Inode)
    → OnePath d
    → get_inode_by_path d path ≡ some r
    → is_stale on_disk r ≡ false
    → get_inode_by_path (cleanup_stale_entries on_disk d).0 path ≡ some r
unfolding cleanup_stale_entries delete_failed_writebacks get_inode_by_path
cleanup-spares on_disk d path r one there fresh =
    let d' = (delete_failed_writebacks d).0 in
    clean_each-other on_disk path (list_issues d') (d', 0)
      (All-list_issues _ d'
        (All-weaken (λ x own. safe_path on_disk d' path r there fresh x own) d.inodes one))
    ∙ there

module _ (s : Setting) (now : ℕ) where
  module _ (st : State) (a : Attempt) (others : (d : Db) → Keeps d (a.meanwhile d)) where
    unless_kept-Keeps :
        (r : State × Bool) → Keeps st.db r.0.db → Keeps st.db (unless_kept s a now r).db
    unless_kept-Keeps (st', true) h = h
    unless_kept-Keeps (st', false) h =
        Keeps-trans st.db st'.db (unless_kept s a now (st', false)).db h
          (settled-Keeps s now st' a others)

    met_first-Keeps :
        (parent : ℕ) (o : Option Copy) → Keeps st.db (met_first s st a parent now o).db
    met_first-Keeps parent none = settled-Keeps s now st a others
    met_first-Keeps parent (some c) =
        let kept = λ (t : State). Keeps st.db t.db in
        let id = st.node.id in
        let marked = set_sync_status st.db id synced "" in
        if_both kept (inode_dirty st.db id) _ _
          (if_both kept (is_empty (local_baseline st.db id)) (conflicted st no_baseline) st
            (conflicted-Keeps st no_baseline) (Keeps-refl st.db))
          (if_both kept (local_copy_matches st.db st.node c) _ _
            (Keeps-trans st.db marked (clear_sync_failure marked id download_failure)
              (set_sync_status-Keeps st.db id synced "") (clear_sync_failure-Keeps marked id))
            (unless_kept-Keeps (protect_local_collision s st c parent (now / second))
              (protect_local_collision-Keeps s now st a others c parent (now / second))))

  -- Others keep the rows, the edits and the uploads during each of the visits.
  abbrev pub Undisturbed : List Visit → Type 0
  Undisturbed l = All (λ v. (d : Db) → Keeps d (v.attempt.meanwhile d)) l

  sync_files-Keeps :
      (l : List Visit) (d : Db) (t : Option Store)
      → Undisturbed l
      → Keeps d (sync_files s now l (d, t)).0
  unfolding sync_files
  sync_files-Keeps [] d t h = Keeps-refl d
  sync_files-Keeps (v ∷ l) d t h =
      let st : State = record { node = v.file; db = d; store = t; published = false } in
      let st' = met_first s st v.attempt v.parent now v.copy in
      Keeps-trans d st'.db (sync_files s now l (st'.db, st'.store)).0
        (met_first-Keeps st v.attempt h.0 v.parent v.copy) (sync_files-Keeps l st'.db st'.store h.1)

-- The row has a path, and it is neither failed nor refused, or its file is in the folder.
abbrev pub OfUse : (String → Bool) → Inode → Type 0
OfUse on_disk r =
    (r.remote_path ≢ "")
    × (((r.status ≢ failed) × (r.status ≢ rejected)) ⊎ (on_disk r.remote_path ≡ true))

is_failed : (s : Status) → status_is s failed ≡ true → s ≡ failed
is_failed failed h = refl
is_failed synced h = absurd cc
is_failed pending h = absurd cc
is_failed conflict h = absurd cc
is_failed rejected h = absurd cc
is_failed offline h = absurd cc

is_rejected : (s : Status) → status_is s rejected ≡ true → s ≡ rejected
is_rejected rejected h = refl
is_rejected synced h = absurd cc
is_rejected pending h = absurd cc
is_rejected conflict h = absurd cc
is_rejected failed h = absurd cc
is_rejected offline h = absurd cc

OfUse-is_stale :
    (on_disk : String → Bool) (r : Inode) → OfUse on_disk r → is_stale on_disk r ≡ false
OfUse-is_stale on_disk r (path, inr present) = ground (arith, is_empty-false r.remote_path path)
OfUse-is_stale on_disk r (path, inl (not_failed, not_rejected)) = ground (
  arith,
  is_empty-false r.remote_path path,
  λ (h : status_is r.status failed ≡ true). not_failed (is_failed r.status h),
  λ (h : status_is r.status rejected ≡ true). not_rejected (is_rejected r.status h),
)

after_listing-Keeps :
    (s : Setting) (base : String) (now : ℕ) (c : Course) (store : Option Store) (t : Db × Bool)
    → Undisturbed s now c.visits
    → Keeps t.0 (after_listing s base now c store t)
after_listing-Keeps s base now c store (d, false) calm = Keeps-refl d
after_listing-Keeps s base now c store (d, true) calm =
    let d' = (sync_files s now c.visits (d, store)).0 in
    let visited : Keeps d d' = sync_files-Keeps s now c.visits d store calm in
    if_both (Keeps d) c.cut d' (scan s base (now / second) c.folder d') visited (
      Keeps-trans d d' (scan s base (now / second) c.folder d') visited
        (scan-Keeps s base (now / second) c.folder d'))

-- The first synchronization takes out no row that is still of use, wherever it ends: where a row's path
-- is not empty, and it is neither failed nor refused or its file is in the folder, the row is there
-- afterwards under its path, with its id and its pending edit. This is where no two rows have one
-- path and the rest of the program keeps the rows, the edits and the uploads during each of the
-- visits.
pub initial_sync-spares :
    (s : Setting) (base : String) (now : ℕ) (c : Course) (d : Db) (store : Option Store)
    (path : String) (r : Inode)
    → OnePath d
    → Undisturbed s now c.visits
    → get_inode_by_path d path ≡ some r
    → OfUse c.on_disk r
    → (q : Inode) × (get_inode_by_path (initial_sync s base now c d store) path ≡ some q)
      × (r.dirty ≡ true → q.dirty ≡ true)
      × (q.id ≡ r.id)
unfolding initial_sync
initial_sync-spares s base now c d store path r one calm there fresh =
    let cleaned = (cleanup_stale_entries c.on_disk d).0 in
    let listed = populate_remote_tree c.names now c.remote c.root cleaned in
    let kept =
      Keeps-trans cleaned listed.0 (after_listing s base now c store listed)
        (populate_remote_tree-Keeps c.names now c.remote c.root cleaned)
        (after_listing-Keeps s base now c store listed calm) in
    kept.0 path r (cleanup-spares c.on_disk d path r one there (OfUse-is_stale c.on_disk r fresh))
