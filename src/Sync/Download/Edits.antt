-- ===== src/Sync/Download/Edits.antt =====
-- A visit of the downloader loses no edit: internal/mount/syncer/downloader.go and
-- downloader_local.go.
use pigcloud_cli.Common.{
  if_both, ℕ, ◌/◌, String, Bool, true, false, not, ◌||◌, refl, Option, none, some, ltb, ◌==◌, same,
  is_empty,
}
use pigcloud_cli.Retry.{second, Failure}
use pigcloud_cli.Cache.{synced, failed, SyncFailure, download_failure, upload, Db}
use pigcloud_cli.Cache.Inodes.{
  has_id, get_inode_by_path, upsert_inode, mark_cached, set_inode_size, set_local_content,
  set_sync_status, set_local_content_for_version, mark_local_conflict, invalidate_cache,
}
use pigcloud_cli.Cache.Queue.{has_active_writeback}
use pigcloud_cli.Cache.Failures.{set_failures, record_sync_failure, clear_sync_failure}
use pigcloud_cli.Cache.Evict.{Machine}
use pigcloud_cli.Sync.Names.{Refusal, validate_file}
use pigcloud_cli.Sync.Kept.{
  Keeps, Keeps-refl, Keeps-trans, update-Keeps, upsert_inode-Keeps, set_sync_status-Keeps,
  set_local_content-Keeps, set_local_content_for_version-Keeps, mark_local_conflict-Keeps,
}
use pigcloud_cli.Sync.Reconcile.{Setting}
use pigcloud_cli.Sync.Reconcile.Edits.{enqueue-Keeps}
use pigcloud_cli.Sync.Download.{
  State, same_reading, Fetched, fetched, fetch_failed, Attempt, Result, saved, lost, local_changed,
  remote_changed, inode_dirty, local_baseline, conflicted, is_other, is_unreadable, commit_download,
  published_as, published, stored, overtaken, received, max_in_memory, download_file, unverified,
  both_differ, no_baseline, folder_changed, file_changed, changes_pending, not_baseline,
}
use pigcloud_cli.Sync.Download.Visiting.{
  Copy, record_download_failure, settle, download_due, local_copy_matches, queued, upload_row,
  enqueue_local_upload, collided, protect_local_collision, fetch_due, unless_protected, met, visit,
  is_current,
}

set_failures-Keeps : (d : Db) (l : _) → Keeps d (set_failures d l)
unfolding get_inode_by_path has_active_writeback
set_failures-Keeps d l = ((λ path r e. (r, e, (λ h. h), refl)), (λ inode h. h))

pub clear_sync_failure-Keeps : (d : Db) (i : ℕ) → Keeps d (clear_sync_failure d i download_failure)
unfolding clear_sync_failure
clear_sync_failure-Keeps d i = set_failures-Keeps d _

record_sync_failure-Keeps : (d : Db) (f : SyncFailure) → Keeps d (record_sync_failure d f)
unfolding record_sync_failure
record_sync_failure-Keeps d f = set_failures-Keeps d _

mark_cached-Keeps : (d : Db) (i : ℕ) (hash : String) (now : ℕ) → Keeps d (mark_cached d i hash now)
unfolding mark_cached
mark_cached-Keeps d i hash now = update-Keeps (has_id i) _ (λ r. refl) (λ r. refl) (λ r h. h) d

set_inode_size-Keeps : (d : Db) (i size : ℕ) → Keeps d (set_inode_size d i size)
unfolding set_inode_size
set_inode_size-Keeps d i size = update-Keeps (has_id i) _ (λ r. refl) (λ r. refl) (λ r h. h) d

pub invalidate_cache-Keeps : (d : Db) (i : ℕ) → Keeps d (invalidate_cache d i)
unfolding invalidate_cache
invalidate_cache-Keeps d i = update-Keeps (has_id i) _ (λ r. refl) (λ r. refl) (λ r h. h) d

pub conflicted-Keeps : (st : State) (why : String) → Keeps st.db (conflicted st why).db
unfolding conflicted
conflicted-Keeps st why =
    let d = mark_local_conflict st.db st.node.id why in
    Keeps-trans st.db d (clear_sync_failure d st.node.id download_failure)
      (mark_local_conflict-Keeps st.db st.node.id why) (clear_sync_failure-Keeps d st.node.id)

commit_download-Keeps :
    (m : Machine) (st : State) (size : ℕ) (hash : String) (mtime : ℕ) (etag : String) (now : ℕ)
    → Keeps st.db (commit_download m st size hash mtime etag now).db
unfolding commit_download
commit_download-Keeps m st size hash mtime etag now =
    let id = st.node.id in
    let d = mark_cached st.db id "" now in
    let d' = set_inode_size d id size in
    let d'' = set_local_content_for_version d' id hash mtime etag in
    Keeps-trans st.db d (set_sync_status d'' id synced "") (mark_cached-Keeps st.db id "" now) (
      Keeps-trans d d' (set_sync_status d'' id synced "") (set_inode_size-Keeps d id size) (
        Keeps-trans d' d'' (set_sync_status d'' id synced "")
          (set_local_content_for_version-Keeps d' id hash mtime etag)
          (set_sync_status-Keeps d'' id synced "")))

record_download_failure-Keeps :
    (d : Db) (id : ℕ) (e : Failure) (now : ℕ) → Keeps d (record_download_failure d id e now)
unfolding record_download_failure
record_download_failure-Keeps d id e now =
    if_both (Keeps d) (id == 0 || e.canceled) d _ (Keeps-refl d) (
      if_both (Keeps d) e.is_permanent _ _
        (Keeps-trans d (set_sync_status d id failed e.message) _
          (set_sync_status-Keeps d id failed e.message) (record_sync_failure-Keeps _ _))
        (record_sync_failure-Keeps d _))

settle-Keeps : (st : State) (r : Result) (now : ℕ) → Keeps st.db (settle (st, r) now).db
unfolding settle
settle-Keeps st saved now = clear_sync_failure-Keeps st.db st.node.id
settle-Keeps st local_changed now = Keeps-refl st.db
settle-Keeps st remote_changed now = Keeps-refl st.db
settle-Keeps st (lost e) now = record_download_failure-Keeps st.db st.node.id e now

module _ (s : Setting) (now : ℕ) where
  module _ (d : Db) (a : Attempt) (hash : String) (size : ℕ) (etag : String) where
    abbrev After : State × Result → Type 0
    After r = Keeps d r.0.db

    published_as-Keeps :
        (st : State) → Keeps d st.db → After (published_as s.machine st a hash size etag now)
    unfolding published_as
    published_as-Keeps st h =
        let unchanged = same a.etag_later etag in
        let n = record st.node { cached = unchanged; size = size; etag = a.etag_later } in
        let st' = record st { node = n; published = true } in
        let committed = commit_download s.machine st' size hash a.local_mtime etag now in
        let kept : Keeps d committed.db =
          Keeps-trans d st.db committed.db h
            (commit_download-Keeps s.machine st' size hash a.local_mtime etag now) in
        if_both After unchanged _ _ kept (
          Keeps-trans d committed.db (invalidate_cache committed.db n.id) kept
            (invalidate_cache-Keeps committed.db n.id))

    after_conflict : (st : State) (why : String) → Keeps d st.db → Keeps d (conflicted st why).db
    after_conflict st why h = Keeps-trans d st.db (conflicted st why).db h (conflicted-Keeps st why)

    stored-Keeps : (st : State) → Keeps d st.db → After (stored s.machine st a hash size etag now)
    unfolding stored
    stored-Keeps st h =
        let go =
          λ (r : State × Option Result). After (published s.machine a hash size etag now r) in
        if_both After (not a.safe_fetched) _ _ (after_conflict st folder_changed h) (
          if_both After (not a.dir_made) _ _ h (
            if_both After (not a.staged) _ _ h (
              if_both go (not (same st.node.etag etag)) (st, some remote_changed) _ h
                (if_both go (not a.safe_then) (conflicted st folder_changed, some local_changed) _
                  (after_conflict st folder_changed h)
                  (if_both go (not (same_reading a.before a.after) || inode_dirty st.db st.node.id)
                    (conflicted st file_changed, some local_changed) (st, none)
                    (after_conflict st file_changed h)
                    (if_both After (not a.renamed) _ _ h (published_as-Keeps st h)))))))

  module _ (st : State) (a : Attempt) (others : (d : Db) → Keeps d (a.meanwhile d)) where
    received-Keeps : (f : Fetched) → Keeps st.db (received s.machine st a st.node.etag now f).0.db
    received-Keeps (fetched hash size) =
        stored-Keeps st.db a hash size st.node.etag (overtaken st a) (others st.db)
    received-Keeps (fetch_failed e) = others st.db

    download_file-Keeps : Keeps st.db (download_file s.machine st a now).0.db
    unfolding download_file
    download_file-Keeps =
        let id = st.node.id in
        let kept = λ (r : State × Result). Keeps st.db r.0.db in
        if_both kept (not a.safe_before) _ _ (Keeps-refl st.db) (
          if_both kept (is_unreadable a.before || inode_dirty st.db id) _ _
            (conflicted-Keeps st changes_pending)
            (if_both kept (is_other a.before (local_baseline st.db id)) _ _
              (conflicted-Keeps st not_baseline)
              (if_both kept (ltb max_in_memory st.node.size) _ _ (Keeps-refl st.db)
                (received-Keeps a.fetch))))

    pub settled-Keeps : Keeps st.db (settle (download_file s.machine st a now) now).db
    settled-Keeps =
        let (st', r) = download_file s.machine st a now in
        Keeps-trans st.db st'.db (settle (st', r) now).db download_file-Keeps
          (settle-Keeps st' r now)

    fetch_due-Keeps : Keeps st.db (fetch_due s st a now).db
    fetch_due-Keeps =
        if_both (λ (t : State). Keeps st.db t.db) (download_due st.db st.node.id (now / second)) _
          st settled-Keeps (Keeps-refl st.db)

  module _ (st : State) (a : Attempt) (others : (d : Db) → Keeps d (a.meanwhile d)) where
    queued-Keeps :
        (d : Db) (id : ℕ) (path : String) (at_second : ℕ) (fresh : String) (o : Option Refusal)
        → Keeps d (queued d id path at_second fresh o)
    queued-Keeps d id path at_second fresh none =
        enqueue-Keeps d id upload path at_second fresh refl
    queued-Keeps d id path at_second fresh (some why) = Keeps-refl d

    module _ (c : Copy) (parent at_second : ℕ) where
      enqueue_local_upload-Keeps : Keeps st.db (enqueue_local_upload s st c parent at_second).db
      unfolding enqueue_local_upload
      enqueue_local_upload-Keeps =
          let refusal = validate_file s.types c.name c.size in
          let row = upload_row s st.node c parent refusal in
          let (d, id) = upsert_inode st.db row in
          let d' = set_local_content d id "" 0 in
          let d'' = queued d' id st.node.remote_path at_second c.fresh refusal in
          Keeps-trans st.db d d'' (upsert_inode-Keeps st.db row) (
            Keeps-trans d d' d'' (set_local_content-Keeps d id "" 0)
              (queued-Keeps d' id st.node.remote_path at_second c.fresh refusal))

      abbrev Protects : State × Bool → Type 0
      Protects r = Keeps st.db r.0.db

      collided-Keeps : (o : Option String) → Protects (collided s st c parent at_second o)
      collided-Keeps none = conflicted-Keeps st unverified
      collided-Keeps (some hash) =
          if_both Protects (same hash (local_baseline st.db st.node.id)) (st, false) _
            (Keeps-refl st.db)
            (if_both Protects (is_current st) (enqueue_local_upload s st c parent at_second, true) _
              enqueue_local_upload-Keeps (conflicted-Keeps st both_differ))

      pub protect_local_collision-Keeps : Protects (protect_local_collision s st c parent at_second)
      unfolding protect_local_collision
      protect_local_collision-Keeps =
          if_both Protects (inode_dirty st.db st.node.id) (st, true) _ (Keeps-refl st.db)
            (if_both Protects (is_empty (local_baseline st.db st.node.id))
              (conflicted st no_baseline, true) _ (conflicted-Keeps st no_baseline)
              (collided-Keeps c.digest))

    after_protection :
        (r : State × Bool) → Keeps st.db r.0.db → Keeps st.db (unless_protected s a now r).db
    after_protection (st', true) h = h
    after_protection (st', false) h =
        Keeps-trans st.db st'.db (fetch_due s st' a now).db h (fetch_due-Keeps st' a others)

    met-Keeps : (parent : ℕ) (o : Option Copy) → Keeps st.db (met s st a parent now o).db
    met-Keeps parent none = fetch_due-Keeps st a others
    met-Keeps parent (some c) =
        let id = st.node.id in
        let cleared = clear_sync_failure st.db id download_failure in
        if_both (λ (t : State). Keeps st.db t.db) (local_copy_matches st.db st.node c) _ _
          (Keeps-trans st.db cleared (set_sync_status cleared id synced "")
            (clear_sync_failure-Keeps st.db id) (set_sync_status-Keeps cleared id synced ""))
          (after_protection (protect_local_collision s st c parent (now / second))
            (protect_local_collision-Keeps c parent (now / second)))

-- Whatever a visit of the downloader meets, in the local folder, on the server and on the disk: where
-- the rest of the program keeps the rows, the pending edits and the uploads meanwhile, so does the
-- visit. It takes no row out of the database, moves none to another path or id and clears no pending
-- edit, and an inode that had an upload waiting or claimed in the queue still has one.
pub visit-Keeps :
    (s : Setting) (st : State) (a : Attempt) (parent now : ℕ) (copy : Option Copy)
    → ((d : Db) → Keeps d (a.meanwhile d))
    → Keeps st.db (visit s st a parent now copy).db
unfolding visit
visit-Keeps s st a parent now copy others =
    if_both (λ (t : State). Keeps st.db t.db)
      (st.node.cached || st.node.dirty || inode_dirty st.db st.node.id) st _ (Keeps-refl st.db)
      (met-Keeps s now st a others parent copy)
