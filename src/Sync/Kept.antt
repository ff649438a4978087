-- ===== src/Sync/Kept.antt =====
-- What the operations on the database keep, whoever makes them: the rows' pending edits and the
-- uploads that are on their way. internal/mount/cache/db.go and local_content.go.
pub mod Uploads
use pigcloud_cli.Common.{
  ℕ, String, List, [], ◌∷◌, ◌++◌, Bool, true, false, not, ◌&&◌, ◌||◌, ◌≡◌, refl, ◌∙◌, ap, inl, inr,
  some, arith, ◌==◌, same, same_iff, if◌then◌else◌, keep, any, Bool-cases, Option-cases,
}
use pigcloud_cli.Cache.{
  Status, Inode, Action, upload, mkdir, delete, rename, unknown, Extra, Entry, Db, action_is,
}
use pigcloud_cli.Cache.Inodes.{
  update, has_path, has_id, set_rows, get_inode_by_path, upsert_inode, set_sync_status,
  set_local_content, mark_local_conflict, set_local_content_for_version,
}
use pigcloud_cli.Cache.Inodes.Merge.{find-update, on_some, upsert_inode-keeps}
use pigcloud_cli.Cache.Queue.Claims.{enqueued}
use pigcloud_cli.Cache.Queue.{
  is_waiting, is_claimed, is_gave_up, duplicates, new_entry, with_key, enqueue_writeback,
  has_active_writeback, delete_failed_upload_writebacks,
}

-- Every row is still there under its path and id, and an edit that was pending in it still is.
abbrev pub KeepsEdits : Db → Db → Type 0
KeepsEdits d d' =
    (path : String) (r : Inode)
    → get_inode_by_path d path ≡ some r
    → (s : Inode) × (get_inode_by_path d' path ≡ some s)
      × (r.dirty ≡ true → s.dirty ≡ true)
      × (s.id ≡ r.id)

-- An upload that is waiting or claimed is still followed by one.
abbrev pub KeepsUploads : Db → Db → Type 0
KeepsUploads d d' =
    (inode : ℕ)
    → has_active_writeback d inode upload ≡ true
    → has_active_writeback d' inode upload ≡ true

abbrev pub Keeps : Db → Db → Type 0
Keeps d d' = KeepsEdits d d' × KeepsUploads d d'

pub Keeps-refl : (d : Db) → Keeps d d
Keeps-refl d = ((λ path r e. (r, e, (λ h. h), refl)), (λ inode h. h))

pub Keeps-trans : (d e f : Db) → Keeps d e → Keeps e f → Keeps d f
Keeps-trans d e f (rows, uploads) (rows', uploads') = (
  (λ path r found.
      let (s, there, dirty, same_id) = rows path r found in
      let (t, there', dirty', same_id') = rows' path s there in
      (t, there', (λ h. dirty' (dirty h)), same_id' ∙ same_id)),
  (λ inode h. uploads' inode (uploads inode h)),
)

-- An update that leaves paths, ids and pending edits alone.
module _ (p : Inode → Bool) (f : Inode → Inode)
    (path_kept : (r : Inode) → (f r).remote_path ≡ r.remote_path)
    (id_kept : (r : Inode) → (f r).id ≡ r.id)
    (edit_kept : (r : Inode) → r.dirty ≡ true → (f r).dirty ≡ true) where
  changed : Inode → Inode
  changed r = if p r then f r else r

  pub update-Keeps : (d : Db) → Keeps d (set_rows d (update p f d.inodes))
  unfolding get_inode_by_path has_active_writeback changed
  update-Keeps d = (
    (λ path r found.
        let seen =
          find-update (has_path path) p f (λ q. ap (λ t. same t path) (path_kept q)) d.inodes in
        (
          changed r,
          seen ∙ ap (on_some changed) found,
          (λ h. ground (arith, edit_kept r)),
          ground (arith, id_kept r),
        )),
    (λ inode h. h),
  )

pub upsert_inode-queue : (d : Db) (n : Inode) → (upsert_inode d n).0.queue ≡ d.queue
unfolding upsert_inode
upsert_inode-queue d n = elim (Option-cases (get_inode_by_path d n.remote_path)) [
  | inl fresh ↦ rw (fresh, upsert_inode) refl
  | inr (old, stored) ↦ rw (stored, upsert_inode) refl
]

pub has_active-queue :
    (d d' : Db) (inode : ℕ) (a : Action)
    → d'.queue ≡ d.queue
    → has_active_writeback d' inode a ≡ has_active_writeback d inode a
unfolding has_active_writeback
has_active-queue d d' inode a e = rw e refl

pub upsert_inode-Keeps : (d : Db) (n : Inode) → Keeps d (upsert_inode d n).0
upsert_inode-Keeps d n = (
  (λ path r found.
      let (s, there, dirty, same_id, pin, access) = upsert_inode-keeps d n path r found in
      (s, there, dirty, same_id)),
  (λ inode h. has_active-queue d (upsert_inode d n).0 inode upload (upsert_inode-queue d n) ∙ h),
)

pub set_sync_status-Keeps :
    (d : Db) (i : ℕ) (s : Status) (why : String) → Keeps d (set_sync_status d i s why)
unfolding set_sync_status
set_sync_status-Keeps d i s why = update-Keeps (has_id i) _ (λ r. refl) (λ r. refl) (λ r h. h) d

pub set_local_content-Keeps :
    (d : Db) (i : ℕ) (hash : String) (mtime : ℕ) → Keeps d (set_local_content d i hash mtime)
unfolding set_local_content
set_local_content-Keeps d i hash mtime =
    update-Keeps (has_id i) _ (λ r. refl) (λ r. refl) (λ r h. h) d

pub set_local_content_for_version-Keeps :
    (d : Db) (i : ℕ) (hash : String) (mtime : ℕ) (etag : String)
    → Keeps d (set_local_content_for_version d i hash mtime etag)
unfolding set_local_content_for_version
set_local_content_for_version-Keeps d i hash mtime etag =
    update-Keeps (has_id i) _ (λ r. refl) (λ r. refl) (λ r h. h) d

pub mark_local_conflict-Keeps :
    (d : Db) (i : ℕ) (why : String) → Keeps d (mark_local_conflict d i why)
unfolding mark_local_conflict
mark_local_conflict-Keeps d i why =
    update-Keeps (has_id i) _ (λ r. refl) (λ r. refl) (λ r h. refl) d
