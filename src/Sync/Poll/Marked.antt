-- ===== src/Sync/Poll/Marked.antt =====
-- The rows of pending edits through the poller's statements: internal/mount/syncer/poller.go and
-- internal/mount/cache/db.go.
use pigcloud_cli.Common.{
  ℕ, String, List, [], ◌∷◌, Bool, true, false, not, ◌&&◌, ◌≡◌, refl, ◌∙◌, ap, inl, inr, Option,
  none, some, arith, ◌==◌, same, if◌then◌else◌, if_both, keep, Bool-cases,
}
use pigcloud_cli.Cache.{Status, conflict, Inode, download_failure, Db, status_is}
use pigcloud_cli.Cache.Inodes.{
  find, update, has_id, has_path, set_rows, get_inode, get_inode_by_path, merge, new_row,
  upsert_inode, set_sync_status, invalidate_cache, set_remote_version, delete_inode,
}
use pigcloud_cli.Cache.Inodes.Merge.{on_some, find-update, find-append_some}
use pigcloud_cli.Cache.Failures.{clear_sync_failure}
use pigcloud_cli.Cache.Blobs.{Store}
use pigcloud_cli.Cache.Evict.{Machine}
use pigcloud_cli.Sync.Poll.{
  Node, ListEntry, Seen, locally_dirty, remote_changed, mark_conflict, drop_cached, take_over,
  poll_existing, pending_edits,
}

-- The row of the id is there, has the path, and is marked as edited.
abbrev pub Marked : ℕ → String → Db → Type 0
Marked i path d = (r : Inode) × (get_inode d i ≡ some r) × (r.dirty ≡ true) × (r.remote_path ≡ path)

abbrev pub KeepsMarks : Db → Db → Type 0
KeepsMarks d d' = (i : ℕ) (path : String) → Marked i path d → Marked i path d'

module _ (p : Inode → Bool) (f : Inode → Inode)
    (path_kept : (r : Inode) → (f r).remote_path ≡ r.remote_path)
    (id_kept : (r : Inode) → (f r).id ≡ r.id)
    (edit_kept : (r : Inode) → r.dirty ≡ true → (f r).dirty ≡ true) where
  changed : Inode → Inode
  changed r = if p r then f r else r

  update-KeepsMarks : (d : Db) → KeepsMarks d (set_rows d (update p f d.inodes))
  unfolding get_inode changed
  update-KeepsMarks d i path (r, found, dirty, at_path) =
      let seen = find-update (has_id i) p f (λ q. ap (λ t. t == i) (id_kept q)) d.inodes in
      (
        changed r,
        seen ∙ ap (on_some changed) found,
        ground (arith, edit_kept r),
        ground (arith, path_kept r),
      )

set_sync_status-KeepsMarks :
    (d : Db) (i : ℕ) (s : Status) (why : String) → KeepsMarks d (set_sync_status d i s why)
unfolding set_sync_status
set_sync_status-KeepsMarks d i s why =
    update-KeepsMarks (has_id i) _ (λ r. refl) (λ r. refl) (λ r h. h) d

set_remote_version-KeepsMarks :
    (d : Db) (i : ℕ) (etag : String) → KeepsMarks d (set_remote_version d i etag)
unfolding set_remote_version
set_remote_version-KeepsMarks d i etag =
    update-KeepsMarks (has_id i) _ (λ r. refl) (λ r. refl) (λ r h. h) d

dropped-KeepsMarks :
    (d : Db) (i : ℕ) → KeepsMarks d (clear_sync_failure (invalidate_cache d i) i download_failure)
unfolding clear_sync_failure invalidate_cache get_inode
dropped-KeepsMarks d i = update-KeepsMarks (has_id i) _ (λ r. refl) (λ r. refl) (λ r h. h) d

upserted-KeepsMarks :
    (d : Db) (n : Inode) (o : Option Inode)
    → get_inode_by_path d n.remote_path ≡ o
    → KeepsMarks d (upsert_inode d n).0
unfolding upsert_inode get_inode merge
upserted-KeepsMarks d n none fresh i path (r, found, dirty, at_path) =
    rw (fresh, upsert_inode)
      (r, find-append_some (has_id i) d.inodes (new_row n d.next_inode) r found, dirty, at_path)
upserted-KeepsMarks d n (some old) stored i path h =
    rw (stored, upsert_inode)
      (update-KeepsMarks (has_path n.remote_path) (merge n) (λ r. refl) (λ r. refl)
        (λ r h. ground (arith, h)) d i path h)

pub upsert_inode-KeepsMarks : (d : Db) (n : Inode) → KeepsMarks d (upsert_inode d n).0
upsert_inode-KeepsMarks d n = upserted-KeepsMarks d n (get_inode_by_path d n.remote_path) refl

find-keep_other :
    (i : ℕ) (path : String) (l : List Inode) (r : Inode)
    → find (has_id i) l ≡ some r
    → same r.remote_path path ≡ false
    → find (has_id i) (keep (λ q. not (has_path path q)) l) ≡ some r
unfolding find
find-keep_other i path [] r h other = absurd cc
find-keep_other i path (q ∷ l) r h other = elim (Bool-cases (q.id == i)) [
  | inl hit ↦
      let it : q ≡ r = cc (rw hit at h) in
      let kept : same q.remote_path path ≡ false =
        ap (λ (t : Inode). same t.remote_path path) it ∙ other in
      rw kept (rw hit (ap some it))
  | inr miss ↦
      let later = find-keep_other i path l r (rw miss at h) other in
      elim (Bool-cases (same q.remote_path path)) [
        | inl gone ↦ rw gone later
        | inr stays ↦ rw stays (rw miss later)
      ]
]

-- A deletion leaves the rows of the other paths.
pub delete_inode-Marked :
    (d : Db) (i : ℕ) (path gone : String)
    → same path gone ≡ false
    → Marked i path d
    → Marked i path (delete_inode d gone)
unfolding get_inode delete_inode
delete_inode-Marked d i path gone other (r, found, dirty, at_path) =
    (r, find-keep_other i gone d.inodes r found (rw at_path other), dirty, at_path)

abbrev pub db_of : Seen → Db
db_of (n, d, s) = d

take_over-KeepsMarks : (e : ListEntry) (t : Seen) → KeepsMarks (db_of t) (db_of (take_over e t))
take_over-KeepsMarks e (n, d, s) = set_remote_version-KeepsMarks d n.id e.etag

pub poll_existing-KeepsMarks :
    (m : Machine) (n : Node) (e : ListEntry) (d : Db) (s : Option Store)
    → KeepsMarks d (db_of (poll_existing m n e d s))
unfolding poll_existing mark_conflict drop_cached
poll_existing-KeepsMarks m n e d s =
    let keeps = λ (t : Seen). KeepsMarks d (db_of t) in
    let seen = if remote_changed n e then drop_cached m n e d s else (n, d, s) in
    let before : keeps seen =
      if_both keeps (remote_changed n e) (drop_cached m n e d s) (n, d, s)
        (dropped-KeepsMarks d n.id) (λ i path h. h) in
    if_both keeps (locally_dirty d n && remote_changed n e) (mark_conflict n d s) (take_over e seen)
      (if_both keeps (status_is n.status conflict) (n, d, s) _ (λ i path h. h)
        (set_sync_status-KeepsMarks d n.id conflict pending_edits))
      (λ i path h. take_over-KeepsMarks e seen i path (before i path h))
