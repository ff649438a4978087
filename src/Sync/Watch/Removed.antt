-- ===== src/Sync/Watch/Removed.antt =====
-- What handleRemove makes of a row: internal/mount/syncer/watcher.go.
use pigcloud_cli.Common.{
  if_true, if_false, ℕ, String, List, [], ◌∷◌, Bool, true, false, not, ◌&&◌, ◌||◌, ◌≡◌, refl, sym,
  ◌∙◌, ap, subst, ◌⊎◌, inl, inr, none, some, arith, ◌==◌, any, keep, Option-cases,
}
use pigcloud_cli.Cache.{synced, conflict, Inode, delete, Extra, Entry, Db, status_is}
use pigcloud_cli.Cache.Inodes.{find, has_path, get_inode_by_path, delete_inode}
use pigcloud_cli.Cache.Queue.{
  new_entry, with_key, enqueue_writeback, has_active_writeback, delete_writeback_by_inode,
}
use pigcloud_cli.Cache.Queue.Claims.{enqueued, others}
use pigcloud_cli.Sync.Kept.Uploads.{last-any}
use pigcloud_cli.Sync.Names.{to_remote_path}
use pigcloud_cli.Sync.Reconcile.{enqueue}
use pigcloud_cli.Sync.Reconcile.Queued.{enqueue-rows, same_rows, enqueue_writeback-none}
use pigcloud_cli.Sync.Watch.{Setting, State, Local, remove_row, remove_found, handle_remove, set_db}

-- The row is one that the server has too, as far as its status tells.
abbrev pub is_remote : Inode → Bool
is_remote i = status_is i.status synced || status_is i.status conflict

-- Neither the row nor any of its entries is left.
abbrev pub Forgotten : Db → String → Inode → Type 0
Forgotten d path i =
    (get_inode_by_path d path ≡ none) × (any (λ e. e.inode_id == i.id) d.queue ≡ false)

-- The row is as it was, and its removal on the server is on its way.
abbrev pub Deleting : Db → String → Inode → Type 0
Deleting d path i =
    (get_inode_by_path d path ≡ some i)
    × ((has_active_writeback d i.id delete ≡ true) ⊎ (d.writeback_disabled ≡ true))

find-dropped : (p : Inode → Bool) (l : List Inode) → find p (keep (λ r. not (p r)) l) ≡ none
unfolding find
find-dropped p [] = refl
find-dropped p (r ∷ l) = ground (arith, find-dropped p l)

any-dropped : (p : Entry → Bool) (l : List Entry) → any p (keep (λ e. not (p e)) l) ≡ false
any-dropped p [] = refl
any-dropped p (e ∷ l) = ground (arith, any-dropped p l)

delete-on_its_way :
    (d : Db) (inode : ℕ) (path : String) (now : ℕ) (fresh : String)
    → let d' = enqueue d inode delete path now fresh in
      (has_active_writeback d' inode delete ≡ true) ⊎ (d'.writeback_disabled ≡ true)
unfolding enqueue has_active_writeback
delete-on_its_way d inode path now fresh =
    let x : Extra = record { idempotency_key = ""; target = "" } in
    elim (Option-cases (enqueue_writeback d inode delete path x now fresh)) [
      | inl refused ↦
          rw (refused, enqueue)
            (inr (enqueue_writeback-none d inode delete path x now fresh refused))
      | inr (d', e) ↦
          rw (e, enqueue, enqueued d inode delete path x now fresh d' refl e)
            (inl (
              last-any _ (others d inode delete)
                (new_entry d.next_entry inode delete path (with_key delete fresh x) now)
                (ground arith)))
    ]

module _ (d : Db) (path : String) (i : Inode) (now : ℕ) (fresh : String)
    (there : get_inode_by_path d path ≡ some i) where
  remove_row-Forgotten : is_remote i ≡ false → Forgotten (remove_row d path i now fresh) path i
  unfolding remove_row delete_inode delete_writeback_by_inode get_inode_by_path
  remove_row-Forgotten local_only =
      let b = not (status_is i.status synced) && not (status_is i.status conflict) in
      let is_local : b ≡ true = ground (arith, local_only) in
      subst (λ t. Forgotten t path i)
        (sym (if_true b _ (enqueue d i.id delete path now fresh) is_local))
        (find-dropped (has_path path) d.inodes, any-dropped (λ e. e.inode_id == i.id) d.queue)

  remove_row-Deleting : is_remote i ≡ true → Deleting (remove_row d path i now fresh) path i
  unfolding remove_row
  remove_row-Deleting remote =
      let b = not (status_is i.status synced) && not (status_is i.status conflict) in
      let not_local : b ≡ false = ground (arith, remote) in
      let gone = delete_inode (delete_writeback_by_inode d i.id) path in
      subst (λ t. Deleting t path i) (sym (if_false b gone _ not_local))
        (
          same_rows d (enqueue d i.id delete path now fresh) path
                (enqueue-rows d i.id delete path now fresh refl)
              ∙ there,
          delete-on_its_way d i.id path now fresh,
        )

-- A path that is gone from the folder, and has a row: where the row is synchronized or in conflict
-- it stays as it is and the removal on the server is waiting or claimed in the queue, unless the
-- mount is read-only; in any other status neither the row nor an entry of its inode is left.
pub handle_remove_lem :
    (s : Setting) (st : State) (l : Local) (now : ℕ) (i : Inode)
    → l.safe ≡ true
    → get_inode_by_path st.cache.db (to_remote_path s.base l.rel) ≡ some i
    → let d' = (handle_remove s st l now).cache.db in
      (is_remote i ≡ true → Deleting d' (to_remote_path s.base l.rel) i)
      × (is_remote i ≡ false → Forgotten d' (to_remote_path s.base l.rel) i)
unfolding handle_remove
handle_remove_lem s st l now i safe there =
    let d = st.cache.db in
    let path = to_remote_path s.base l.rel in
    let reached : handle_remove s st l now ≡ set_db st (remove_row d path i now l.fresh) =
      if_false (not l.safe) st _ (ap not safe)
      ∙ ap (λ o. set_db st (remove_found d path o now l.fresh)) there in
    subst
      (λ (u : State).
        (is_remote i ≡ true → Deleting u.cache.db path i)
        × (is_remote i ≡ false → Forgotten u.cache.db path i))
      (sym reached)
      (
        remove_row-Deleting d path i now l.fresh there,
        remove_row-Forgotten d path i now l.fresh there,
      )
