-- ===== src/Sync/Poll/Twice.antt =====
-- A second look at the same listing changes nothing: internal/mount/syncer/poller.go.
use pigcloud_cli.Common.{
  ℕ, String, List, [], ◌∷◌, Bool, true, false, ◌&&◌, ◌||◌, ◌≡◌, refl, sym, ◌∙◌, ap, subst, inl, inr,
  Option, none, some, arith, same, same_iff, same_refl, if◌then◌else◌, if_true, if_false,
  Bool-cases, Option-cases,
}
use pigcloud_cli.Cache.{Status, conflict, Inode, Db, status_is}
use pigcloud_cli.Cache.Inodes.{find, update, has_id, get_inode, set_sync_status, set_remote_version}
use pigcloud_cli.Cache.Inodes.Merge.{find-update}
use pigcloud_cli.Cache.Blobs.{Store}
use pigcloud_cli.Cache.Evict.{Machine}
use pigcloud_cli.Sync.Poll.{
  Node, ListEntry, Seen, locally_dirty, remote_changed, mark_conflict, drop_cached, take_over,
  poll_existing, or_else, size_changed, mtime_advanced, row_dirty, pending_edits,
}

-- An update that gives the same again is made once.
update_twice :
    (p : Inode → Bool) (f : Inode → Inode)
    → ((r : Inode) → f (f r) ≡ f r)
    → (l : List Inode) → update p f (update p f l) ≡ update p f l
unfolding update
update_twice p f h [] = refl
update_twice p f h (r ∷ l) = elim (Bool-cases (p r)) [
  | inr miss ↦ rw (miss, update_twice p f h l) (rw miss refl)
  | inl hit ↦ rw (hit, update_twice p f h l) (ground (arith, h r))
]

set_remote_version-twice :
    (d : Db) (i : ℕ) (etag : String)
    → set_remote_version (set_remote_version d i etag) i etag ≡ set_remote_version d i etag
unfolding set_remote_version
set_remote_version-twice d i etag =
    ap (λ rows. record d { inodes = rows }) (update_twice (has_id i) _ (λ r. refl) d.inodes)

get_inode-sync_status :
    (d : Db) (i j : ℕ) (s : Status) (why : String)
    → row_dirty (get_inode (set_sync_status d i s why) j) ≡ row_dirty (get_inode d j)
unfolding get_inode set_sync_status
get_inode-sync_status d i j s why =
    ap row_dirty (
      find-update (has_id j) (has_id i) (λ r. record r { status = s; reason = why }) (λ r. refl)
        d.inodes)
    ∙ elim (Option-cases (find (has_id j) d.inodes)) [
      | inl gone ↦ rw gone refl
      | inr (r, found) ↦ rw found (ground arith)
    ]

size_taken : (n : Node) (o : Option ℕ) → n.size ≡ or_else n.size o → size_changed n o ≡ false
size_taken n none h = refl
size_taken n (some size) h = ground arith

mtime_taken : (n : Node) (o : Option ℕ) → n.mtime ≡ or_else n.mtime o → mtime_advanced n o ≡ false
mtime_taken n none h = refl
mtime_taken n (some t) h = ground arith

or_else-twice : (old : ℕ) (o : Option ℕ) → or_else old o ≡ or_else (or_else old o) o
or_else-twice old none = refl
or_else-twice old (some new) = refl

-- A node with the entry's size, time and version is as the remote is.
up_to_date :
    (n : Node) (e : ListEntry)
    → n.etag ≡ e.etag
    → n.size ≡ or_else n.size e.size
    → n.mtime ≡ or_else n.mtime e.modified
    → remote_changed n e ≡ false
unfolding remote_changed
up_to_date n e etag size mtime =
    let same_etag : same n.etag e.etag ≡ true = (same_iff n.etag e.etag).1 etag in
    ground (arith, same_etag, size_taken n e.size size, mtime_taken n e.modified mtime)

-- An entry that shows no change shows none once its time and version are taken over.
still_unchanged :
    (n : Node) (e : ListEntry)
    → remote_changed n e ≡ false
    → remote_changed (record n { mtime = or_else n.mtime e.modified; etag = e.etag }) e ≡ false
unfolding remote_changed
still_unchanged n e h = ground (
  arith,
  h,
  same_iff n.etag e.etag,
  same_refl e.etag,
  mtime_taken (record n { mtime = or_else n.mtime e.modified; etag = e.etag }) e.modified
      (or_else-twice n.mtime e.modified),
)

skip_first : {A : Type 0} → (b c : Bool) (p q : A) → c ≡ false → (if b && c then p else q) ≡ q
skip_first true true p q h = absurd cc
skip_first false true p q h = refl
skip_first true false p q h = refl
skip_first false false p q h = refl

module _ (m : Machine) (e : ListEntry) where
  take_over-twice : (t : Seen) → take_over e (take_over e t) ≡ take_over e t
  take_over-twice (n, d, s) =
      rw (set_remote_version-twice d n.id e.etag, ← or_else-twice n.mtime e.modified) refl

  -- Once the version is taken over, and no change shows, the next look takes it over again.
  looked_again :
      (n : Node) (d : Db) (s : Option Store)
      → remote_changed (take_over e (n, d, s)).0 e ≡ false
      → let (n', d', s') = take_over e (n, d, s) in poll_existing m n' e d' s' ≡ (n', d', s')
  unfolding poll_existing
  looked_again n d s unchanged =
      let (n', d', s') = take_over e (n, d, s) in
      skip_first (locally_dirty d' n') (remote_changed n' e) (mark_conflict n' d' s') _ unchanged
      ∙ ap (take_over e)
          (if_false (remote_changed n' e) (drop_cached m n' e d' s') (n', d', s') unchanged)
      ∙ take_over-twice (n, d, s)

  Same : Seen → Type 0
  Same (n, d, s) = poll_existing m n e d s ≡ (n, d, s)

  taken_again :
      (n : Node) (d : Db) (s : Option Store)
      → Same (take_over e (if remote_changed n e then drop_cached m n e d s else (n, d, s)))
  unfolding Same drop_cached
  taken_again n d s = elim (Bool-cases (remote_changed n e)) [
    | inr unchanged ↦ rw unchanged (looked_again n d s (still_unchanged n e unchanged))
    | inl changed ↦
        let (n', d', s') = drop_cached m n e d s in
        rw changed (
          looked_again n' d' s' (
            up_to_date (take_over e (n', d', s')).0 e refl (or_else-twice n.size e.size)
              (or_else-twice n.mtime e.modified)))
  ]

  seen_conflict :
      (n : Node) (d : Db) (s : Option Store)
      → (locally_dirty d n && remote_changed n e) ≡ true
      → status_is n.status conflict ≡ true
      → Same (n, d, s)
  unfolding Same poll_existing mark_conflict
  seen_conflict n d s both marked =
      if_true (locally_dirty d n && remote_changed n e) (mark_conflict n d s) _ both
      ∙ if_true (status_is n.status conflict) (n, d, s) _ marked

  conflict_again :
      (n : Node) (d : Db) (s : Option Store)
      → (locally_dirty d n && remote_changed n e) ≡ true
      → Same (mark_conflict n d s)
  unfolding Same mark_conflict remote_changed
  conflict_again n d s both = elim (Bool-cases (status_is n.status conflict)) [
    | inl marked ↦ rw marked (seen_conflict n d s both marked)
    | inr fresh ↦
        let n' = record n { status = conflict; reason = pending_edits } in
        let d' = set_sync_status d n.id conflict pending_edits in
        rw fresh (
          seen_conflict n' d' s
            (ap (λ b. (n.dirty || b) && remote_changed n e)
                (get_inode-sync_status d n.id n.id conflict pending_edits)
              ∙ both)
            refl)
  ]

-- A poll that finds a listed entry as the poll before found it changes nothing: the node, its row
-- and the store stay as that one left them, in conflict or taken over.
pub poll_existing-twice :
    (m : Machine) (n : Node) (e : ListEntry) (d : Db) (s : Option Store)
    → let (n', d', s') = poll_existing m n e d s in poll_existing m n' e d' s' ≡ (n', d', s')
unfolding Same poll_existing
poll_existing-twice m n e d s =
    let both = locally_dirty d n && remote_changed n e in
    elim (Bool-cases both) [
      | inl is_both ↦
          subst (Same m e) (sym (if_true both (mark_conflict n d s) _ is_both))
            (conflict_again m e n d s is_both)
      | inr not_both ↦
          subst (Same m e) (sym (if_false both (mark_conflict n d s) _ not_both))
            (taken_again m e n d s)
    ]
