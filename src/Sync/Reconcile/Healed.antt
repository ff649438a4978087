-- ===== src/Sync/Reconcile/Healed.antt =====
-- What the reconciler heals it heals once: internal/mount/syncer/reconciler.go.
use pigcloud_cli.Common.{
  ℕ, String, Bool, true, false, not, ◌&&◌, ◌≡◌, refl, ◌∙◌, ap, subst, inl, inr, Option, none, some,
  arith, same, same_iff, is_empty, ◌==◌, if◌then◌else◌, if_both, Option-cases,
}
use pigcloud_cli.Cache.{
  Status, synced, pending, rejected, failed, conflict, offline, Inode, upload, mkdir,
  upload_failure, download_failure, Db,
}
use pigcloud_cli.Cache.Inodes.{
  has_path, has_id, get_inode_by_path, upsert_inode, set_local_content, ContentState,
  local_content_state,
}
use pigcloud_cli.Cache.Inodes.Merge.{find-update, find-holds, on_some}
use pigcloud_cli.Cache.Queue.{has_active_writeback, delete_failed_upload_writebacks}
use pigcloud_cli.Cache.Failures.{get_sync_failure}
use pigcloud_cli.Sync.Names.{Refusal, validate_file}
use pigcloud_cli.Sync.Reconcile.{
  Setting, State, Info, LocalEntry, new_inode, new_file, heal_dir, queue_validated, queue_new_file,
  superseding, supersede, requeue_upload, upload_latched, is_there, heal_failed, remote_unchanged,
  heal_synced, heal_pending, heal_row, heal_file, heal_entry,
}
use pigcloud_cli.Sync.Reconcile.Queued.{
  Queued, upsert_inode-found, enqueue-rows, same_rows, enqueue-Queued, visited_again,
}

-- What a visit that healed leaves.
abbrev Heals : String → Bool → State × Bool → Type 0
Heals path is_dir (st, healed) = healed ≡ true → Queued st.db path is_dir

pub path_of :
    (d : Db) (path : String) (i : Inode) → get_inode_by_path d path ≡ some i → i.remote_path ≡ path
unfolding get_inode_by_path
path_of d path i found =
    (same_iff i.remote_path path).0 (find-holds (has_path path) d.inodes i found)

pub set_local_content-found :
    (d : Db) (id : ℕ) (path : String) (r : Inode)
    → get_inode_by_path d path ≡ some r
    → (r' : Inode) × (get_inode_by_path (set_local_content d id "" 0) path ≡ some r')
      × (r'.id ≡ r.id)
      × (r'.status ≡ r.status)
unfolding set_local_content get_inode_by_path
set_local_content-found d id path r found =
    let clear = λ (q : Inode). record q {
      local_hash = "";
      local_mtime = 0;
      download_baseline_hash = "";
      local_remote_etag = "";
    } in
    (
      (if r.id == id then clear r else r),
      find-update (has_path path) (has_id id) clear (λ q. refl) d.inodes ∙ ap (on_some _) found,
      ground arith,
      ground arith,
    )

module _ (s : Setting) (st : State) (path : String) (e : LocalEntry) (now : ℕ) where
  heal_dir-Heals : (row : Option Inode) → Heals path true (heal_dir st path e row now)
  unfolding heal_dir
  heal_dir-Heals (some i) h = absurd cc
  heal_dir-Heals none h =
      let n = new_inode path e.name true 0 now false pending "" in
      let (d, id) = upsert_inode st.db n in
      let (r, found, same_id, same_status, _, _) = upsert_inode-found st.db n in
      (r, same_rows d _ path (enqueue-rows d id mkdir path now e.fresh refl) ∙ found, inl refl)

  module _ (f : Info) where
    queue_validated-Heals :
        (refusal : Option Refusal) → Heals path false (queue_validated s st path e f now refusal)
    unfolding queue_validated
    queue_validated-Heals (some why) h = absurd cc
    queue_validated-Heals none h =
        let (r, found, same_id, same_status, _, _) =
          upsert_inode-found st.db (new_file path e f pending "") in
        enqueue-Queued (upsert_inode st.db (new_file path e f pending "")).0
          (upsert_inode st.db (new_file path e f pending "")).1 path path now e.fresh r found
          same_status same_id

    pub supersede-Queued :
        (i : Inode)
        → get_inode_by_path st.db path ≡ some i
        → Queued (supersede s st e i f now).db path false
    unfolding supersede
    supersede-Queued i found =
        let d = delete_failed_upload_writebacks st.db i.id in
        let (d', id) = upsert_inode d (superseding i f) in
        let (r, at_path, same_id, same_status, _, _) = upsert_inode-found d (superseding i f) in
        let same_path : i.remote_path ≡ path = path_of st.db path i found in
        let (r', there, id_kept, status_kept) =
          set_local_content-found d' id path r
            (subst (λ p. get_inode_by_path d' p ≡ some r) same_path at_path) in
        enqueue-Queued (set_local_content d' id "" 0) id path i.remote_path now e.fresh r' there
          (status_kept ∙ same_status) (id_kept ∙ same_id)

    requeue_upload-Heals :
        (i : Inode)
        → get_inode_by_path st.db path ≡ some i
        → Heals path false (requeue_upload s st e i f now)
    unfolding requeue_upload
    requeue_upload-Heals i found =
        elim (Option-cases (validate_file s.types i.display_name f.size)) [
          | inr (why, refused) ↦ rw (refused, requeue_upload) (λ h. absurd cc)
          | inl valid ↦
              rw (valid, requeue_upload)
                (if_both (Heals path false) (has_active_writeback st.db i.id upload) (st, false)
                  (supersede s st e i f now, true) (λ h. absurd cc) (λ h. supersede-Queued i found))
        ]

    heal_failed-Heals :
        (i : Inode)
        → get_inode_by_path st.db path ≡ some i
        → Heals path false (heal_failed s st e i f now)
    unfolding heal_failed
    heal_failed-Heals i found =
        if_both (Heals path false) (upload_latched (get_sync_failure st.db i.id upload_failure) now)
          (st, false) _ (λ h. absurd cc)
          (if_both (Heals path false)
            (not i.dirty && is_there (get_sync_failure st.db i.id download_failure)) (st, false)
            (requeue_upload s st e i f now) (λ h. absurd cc) (requeue_upload-Heals i found))

    heal_synced-Heals :
        (i : Inode) (c : Option ContentState) (digest : Option String)
        → get_inode_by_path st.db path ≡ some i
        → Heals path false (heal_synced s st e i f now c digest)
    unfolding heal_synced
    heal_synced-Heals i none digest found = λ h. absurd cc
    heal_synced-Heals i (some c) none found =
        if_both (Heals path false) (is_empty c.baseline) _ (st, false) (λ h. absurd cc)
          (λ h. absurd cc)
    heal_synced-Heals i (some c) (some sum) found =
        if_both (Heals path false) (is_empty c.baseline) _ _ (λ h. absurd cc)
          (if_both (Heals path false) (same sum c.baseline) _ _ (λ h. absurd cc)
            (if_both (Heals path false) (not (remote_unchanged c i)) _
              (requeue_upload s st e i f now) (λ h. absurd cc) (requeue_upload-Heals i found)))

    heal_row-Heals :
        (i : Inode) (status : Status)
        → get_inode_by_path st.db path ≡ some i
        → Heals path false (heal_row s st path e i f now status)
    unfolding heal_row heal_pending
    heal_row-Heals i rejected found = λ h. absurd cc
    heal_row-Heals i conflict found = λ h. absurd cc
    heal_row-Heals i offline found = λ h. absurd cc
    heal_row-Heals i failed found = heal_failed-Heals i found
    heal_row-Heals i synced found =
        heal_synced-Heals i (local_content_state st.db i.id) e.digest found
    heal_row-Heals i pending found =
        if_both (Heals path false) (has_active_writeback st.db i.id upload) (st, false) _
          (λ h. absurd cc) (λ h. absurd cc)

  heal_file-Heals :
      (row : Option Inode) (info : Option Info)
      → get_inode_by_path st.db path ≡ row
      → Heals path false (heal_file s st path e now row info)
  unfolding queue_new_file
  heal_file-Heals row none found = λ h. absurd cc
  heal_file-Heals none (some f) found =
      queue_validated-Heals f (validate_file s.types e.name f.size)
  heal_file-Heals (some i) (some f) found = heal_row-Heals f i i.status found

  dispatch-Heals :
      (dir : Bool) (row : Option Inode)
      → get_inode_by_path st.db path ≡ row
      → Heals path dir
          (if dir then heal_dir st path e row now else heal_file s st path e now row e.info)
  dispatch-Heals true row found = heal_dir-Heals row
  dispatch-Heals false row found = heal_file-Heals row e.info found

  heal_entry-Heals : Heals path e.is_dir (heal_entry s st path e now)
  unfolding heal_entry
  heal_entry-Heals =
      if_both (Heals path e.is_dir) (not e.safe) (st, false) _ (λ h. absurd cc)
        (dispatch-Heals e.is_dir (get_inode_by_path st.db path) refl)

-- A visit of the reconciler that healed an entry needs no second: the next visit of the same entry,
-- at any time, changes nothing and reports nothing.
pub heal_entry-once :
    (s : Setting) (st : State) (path : String) (e : LocalEntry) (now later : ℕ)
    → (heal_entry s st path e now).1 ≡ true
    → let st' = (heal_entry s st path e now).0 in heal_entry s st' path e later ≡ (st', false)
heal_entry-once s st path e now later healed =
    visited_again s (heal_entry s st path e now).0 path e later
      (heal_entry-Heals s st path e now healed)
