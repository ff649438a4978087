-- ===== src/Sync/Reconcile/Edited.antt =====
-- An edit of a synchronized file does not pass the reconciler unnoticed:
-- internal/mount/syncer/reconciler.go.
use pigcloud_cli.Common.{
  if_true, if_false, ℕ, String, Bool, true, false, not, ◌≡◌, ◌≢◌, refl, sym, ◌∙◌, ap, subst, ◌⊎◌,
  inl, inr, some, arith, same, same_iff, is_empty, ◌==◌, Bool-cases, Option-cases,
}
use pigcloud_cli.Cache.{synced, rejected, conflict, Inode, upload, Db}
use pigcloud_cli.Cache.Inodes.{
  has_path, has_id, get_inode_by_path, set_sync_status, mark_local_conflict, ContentState,
  local_content_state,
}
use pigcloud_cli.Cache.Inodes.Merge.{find-update, on_some}
use pigcloud_cli.Cache.Queue.{has_active_writeback}
use pigcloud_cli.Sync.Names.{validate_file}
use pigcloud_cli.Sync.Reconcile.{
  Setting, State, Info, LocalEntry, requeue_upload, remote_unchanged, heal_synced, heal_row,
  heal_file, heal_dir, heal_entry,
}
use pigcloud_cli.Sync.Reconcile.Queued.{OnItsWay, Queued}
use pigcloud_cli.Sync.Reconcile.Healed.{supersede-Queued}

-- The path's row is in conflict or rejected, or an upload of it is on its way.
abbrev pub Noticed : Db → String → Type 0
Noticed d path =
    (r : Inode) × (get_inode_by_path d path ≡ some r)
    × ((r.status ≡ conflict) ⊎ ((r.status ≡ rejected) ⊎ OnItsWay d r.id))

refl_eq : (n : ℕ) → (n == n) ≡ true
refl_eq n = ground arith

set_sync_status-found :
    (d : Db) (path why : String) (i : Inode)
    → get_inode_by_path d path ≡ some i
    → Noticed (set_sync_status d i.id rejected why) path
unfolding set_sync_status get_inode_by_path
set_sync_status-found d path why i found =
    let to_rejected = λ (q : Inode). record q { status = rejected; reason = why } in
    (
      to_rejected i,
      find-update (has_path path) (has_id i.id) to_rejected (λ q. refl) d.inodes
          ∙ ap (on_some _) found
          ∙ ap some (if_true (i.id == i.id) (to_rejected i) i (refl_eq i.id)),
      inr (inl refl),
    )

mark_local_conflict-found :
    (d : Db) (path why : String) (i : Inode)
    → get_inode_by_path d path ≡ some i
    → Noticed (mark_local_conflict d i.id why) path
unfolding mark_local_conflict get_inode_by_path
mark_local_conflict-found d path why i found =
    let to_conflict =
      λ (q : Inode). record q { cached = false; dirty = true; status = conflict; reason = why } in
    (
      to_conflict i,
      find-update (has_path path) (has_id i.id) to_conflict (λ q. refl) d.inodes
          ∙ ap (on_some _) found
          ∙ ap some (if_true (i.id == i.id) (to_conflict i) i (refl_eq i.id)),
      inl refl,
    )

Queued-Noticed : (d : Db) (path : String) → Queued d path false → Noticed d path
Queued-Noticed d path (r, found, inl impossible) = absurd cc
Queued-Noticed d path (r, found, inr (is_pending, on_its_way)) = (r, found, inr (inr on_its_way))

module _ (s : Setting) (st : State) (path : String) (e : LocalEntry) (now : ℕ) (i : Inode)
    (f : Info) (found : get_inode_by_path st.db path ≡ some i) where
  requeue_upload-Noticed : Noticed (requeue_upload s st e i f now).0.db path
  unfolding requeue_upload
  requeue_upload-Noticed = elim (Option-cases (validate_file s.types i.display_name f.size)) [
    | inr (why, refused) ↦
        rw (refused, requeue_upload) (set_sync_status-found st.db path (s.wording why) i found)
    | inl valid ↦
        rw (valid, requeue_upload)
          (elim (Bool-cases (has_active_writeback st.db i.id upload)) [
            | inl active ↦ rw active (i, found, inr (inr (inl active)))
            | inr idle ↦
                rw idle (Queued-Noticed _ path (supersede-Queued s st path e now f i found))
          ])
  ]

  heal_synced-Noticed :
      (c : ContentState) (sum : String)
      → is_empty c.baseline ≡ false
      → same sum c.baseline ≡ false
      → Noticed (heal_synced s st e i f now (some c) (some sum)).0.db path
  unfolding heal_synced
  heal_synced-Noticed c sum based edited =
      rw (based, heal_synced, edited)
        (elim (Bool-cases (remote_unchanged c i)) [
          | inl unchanged ↦ rw unchanged requeue_upload-Noticed
          | inr changed ↦ rw changed (mark_local_conflict-found st.db path _ i found)
        ])

differs : (a b : String) → a ≢ b → same a b ≡ false
differs a b h = ground (arith, same_iff a b)

-- The visit of such a file comes to the case StatusSynced.
heal_entry-synced :
    (s : Setting) (st : State) (path : String) (e : LocalEntry) (now : ℕ) (i : Inode) (f : Info)
    → e.safe ≡ true
    → e.is_dir ≡ false
    → e.info ≡ some f
    → get_inode_by_path st.db path ≡ some i
    → i.status ≡ synced
    → heal_entry s st path e now
      ≡ heal_synced s st e i f now (local_content_state st.db i.id) e.digest
unfolding heal_entry heal_row
heal_entry-synced s st path e now i f safe file has_info found status =
    let row = get_inode_by_path st.db path in
    if_false (not e.safe) (st, false) _ (ap not safe)
    ∙ if_false e.is_dir (heal_dir st path e row now) (heal_file s st path e now row e.info) file
    ∙ ap (λ o. heal_file s st path e now o e.info) found
    ∙ ap (λ o. heal_file s st path e now (some i) o) has_info
    ∙ ap (λ t. heal_row s st path e i f now t) status

-- A file whose row is synchronized, and whose local content differs from the recorded baseline, is
-- noticed by the visit: afterwards its row is in conflict or rejected, or an upload of it is
-- waiting or claimed in the queue, unless the mount is read-only.
pub heal_entry-edited :
    (s : Setting) (st : State) (path : String) (e : LocalEntry) (now : ℕ) (i : Inode) (f : Info)
    (c : ContentState) (sum : String)
    → e.safe ≡ true
    → e.is_dir ≡ false
    → e.info ≡ some f
    → e.digest ≡ some sum
    → get_inode_by_path st.db path ≡ some i
    → i.status ≡ synced
    → local_content_state st.db i.id ≡ some c
    → c.baseline ≢ ""
    → sum ≢ c.baseline
    → Noticed (heal_entry s st path e now).0.db path
heal_entry-edited s st path e now i f c sum safe file has_info digest found status state based
      edited =
    let reached =
      heal_entry-synced s st path e now i f safe file has_info found status
      ∙ ap (λ o. heal_synced s st e i f now o e.digest) state
      ∙ ap (λ o. heal_synced s st e i f now (some c) o) digest in
    subst (λ (t : State × Bool). Noticed t.0.db path) (sym reached)
      (heal_synced-Noticed s st path e now i f found c sum (differs c.baseline "" based)
        (differs sum c.baseline edited))
