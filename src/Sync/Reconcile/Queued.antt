-- ===== src/Sync/Reconcile/Queued.antt =====
-- What is queued stays as it is: internal/mount/syncer/reconciler.go.
use pigcloud_cli.Common.{
  ℕ, String, Bool, true, false, not, ◌≡◌, refl, ◌∙◌, ap, ◌⊎◌, inl, inr, Option, none, some, arith,
  same_refl, if◌then◌else◌, if_true, Option-cases,
}
use pigcloud_cli.Cache.{pending, Inode, Action, upload, rename, action_is, Extra, Db}
use pigcloud_cli.Cache.Inodes.{get_inode_by_path, merge, new_row, upsert_inode}
use pigcloud_cli.Cache.Inodes.Merge.{get_inode_by_path-upsert}
use pigcloud_cli.Cache.Queue.{enqueue_writeback, has_active_writeback}
use pigcloud_cli.Cache.Queue.Claims.{enqueued}
use pigcloud_cli.Sync.Kept.Uploads.{has_active-enqueued}
use pigcloud_cli.Sync.Reconcile.{
  Setting, State, Info, LocalEntry, enqueue, heal_dir, heal_pending, heal_row, heal_file,
  heal_entry, set_db,
}

-- An upload of the inode is on its way, unless the mount is read-only.
abbrev pub OnItsWay : Db → ℕ → Type 0
OnItsWay d id = (has_active_writeback d id upload ≡ true) ⊎ (d.writeback_disabled ≡ true)

-- The path has a row, and a file's is pending with an upload on its way.
abbrev pub Queued : Db → String → Bool → Type 0
Queued d path is_dir =
    (r : Inode) × (get_inode_by_path d path ≡ some r)
    × ((is_dir ≡ true) ⊎ ((r.status ≡ pending) × OnItsWay d r.id))

-- What an upsert leaves under its path.
pub upsert_inode-found :
    (d : Db) (n : Inode)
    → (r : Inode) × (get_inode_by_path (upsert_inode d n).0 n.remote_path ≡ some r)
      × (r.id ≡ (upsert_inode d n).1)
      × (r.status ≡ n.status)
      × (r.content_hash ≡ n.content_hash)
      × (n.dirty ≡ true → r.dirty ≡ true)
unfolding upsert_inode merge new_row
upsert_inode-found d n =
    let seen = get_inode_by_path-upsert d n n.remote_path in
    elim (Option-cases (get_inode_by_path d n.remote_path)) [
      | inl fresh ↦ (
        new_row n d.next_inode,
        seen ∙ rw (same_refl n.remote_path, fresh) refl,
        rw (fresh, upsert_inode) refl,
        refl,
        refl,
        (λ h. h),
      )
      | inr (old, stored) ↦ (
        merge n old,
        seen ∙ rw (same_refl n.remote_path, stored) refl,
        rw (stored, upsert_inode) refl,
        refl,
        refl,
        (λ h. ground (arith, h)),
      )
    ]

pub enqueue_writeback-none :
    (d : Db) (inode : ℕ) (a : Action) (path : String) (x : Extra) (now : ℕ) (fresh : String)
    → enqueue_writeback d inode a path x now fresh ≡ none
    → d.writeback_disabled ≡ true
unfolding enqueue_writeback
enqueue_writeback-none d inode a path x now fresh e = ground arith

enqueue_writeback-rows :
    (d d' : Db) (inode : ℕ) (a : Action) (path : String) (x : Extra) (now : ℕ) (fresh : String)
    → action_is a rename ≡ false
    → enqueue_writeback d inode a path x now fresh ≡ some d'
    → d'.inodes ≡ d.inodes
enqueue_writeback-rows d d' inode a path x now fresh other e =
    ap (λ (t : Db). t.inodes) (enqueued d inode a path x now fresh d' other e)

pub enqueue-rows :
    (d : Db) (inode : ℕ) (a : Action) (path : String) (now : ℕ) (fresh : String)
    → action_is a rename ≡ false
    → (enqueue d inode a path now fresh).inodes ≡ d.inodes
unfolding enqueue
enqueue-rows d inode a path now fresh other =
    let x : Extra = record { idempotency_key = ""; target = "" } in
    elim (Option-cases (enqueue_writeback d inode a path x now fresh)) [
      | inl refused ↦ rw (refused, enqueue) refl
      | inr (d', e) ↦ rw (e, enqueue) (enqueue_writeback-rows d d' inode a path x now fresh other e)
    ]

pub same_rows :
    (d d' : Db) (path : String)
    → d'.inodes ≡ d.inodes
    → get_inode_by_path d' path ≡ get_inode_by_path d path
unfolding get_inode_by_path
same_rows d d' path e = rw e refl

pub enqueue-Queued :
    (d : Db) (id : ℕ) (path where_at : String) (now : ℕ) (fresh : String) (r : Inode)
    → get_inode_by_path d path ≡ some r
    → r.status ≡ pending
    → r.id ≡ id
    → Queued (enqueue d id upload where_at now fresh) path false
unfolding enqueue
enqueue-Queued d id path where_at now fresh r found is_pending same_id =
    let x : Extra = record { idempotency_key = ""; target = "" } in
    elim (Option-cases (enqueue_writeback d id upload where_at x now fresh)) [
      | inl refused ↦
          rw (refused, enqueue)
            (
              r,
              found,
              inr (
                is_pending,
                inr (enqueue_writeback-none d id upload where_at x now fresh refused),
              ),
            )
      | inr (d', e) ↦
          rw (e, enqueue)
            (
              r,
              same_rows d d' path
                    (enqueue_writeback-rows d d' id upload where_at x now fresh refl e)
                  ∙ found,
              inr (
                is_pending,
                inl (rw same_id (has_active-enqueued d d' id where_at x now fresh e)),
              ),
            )
    ]

pub either : {A : Type 0} → (b : Bool) (p q x : A) → p ≡ x → q ≡ x → (if b then p else q) ≡ x
either true p q x hp hq = hp
either false p q x hp hq = hq

enqueue-read_only :
    (d : Db) (inode : ℕ) (a : Action) (path : String) (now : ℕ) (fresh : String)
    → d.writeback_disabled ≡ true
    → enqueue d inode a path now fresh ≡ d
unfolding enqueue enqueue_writeback
enqueue-read_only d inode a path now fresh read_only = ground (arith, read_only)

module _ (s : Setting) (st : State) (path : String) (e : LocalEntry) (now : ℕ) where
  pending_again : (r : Inode) → OnItsWay st.db r.id → heal_pending st path e r now ≡ (st, false)
  unfolding heal_pending
  pending_again r (inl active) = rw (active, heal_pending) refl
  pending_again r (inr read_only) =
      either (has_active_writeback st.db r.id upload) (st, false) _ (st, false) refl
        (ap (λ d. (set_db st d, false))
          (enqueue-read_only st.db r.id upload path now e.fresh read_only))

  row_again :
      (r : Inode) (f : Info)
      → r.status ≡ pending
      → OnItsWay st.db r.id
      → heal_row s st path e r f now r.status ≡ (st, false)
  unfolding heal_row
  row_again r f is_pending on_its_way = rw (is_pending, heal_row) (pending_again r on_its_way)

  file_again :
      (info : Option Info) (r : Inode)
      → r.status ≡ pending
      → OnItsWay st.db r.id
      → heal_file s st path e now (some r) info ≡ (st, false)
  file_again none r is_pending on_its_way = refl
  file_again (some f) r is_pending on_its_way = row_again r f is_pending on_its_way

  -- What is queued is left as it is by the next visit.
  pub visited_again : Queued st.db path e.is_dir → heal_entry s st path e now ≡ (st, false)
  unfolding heal_entry heal_dir
  visited_again (r, found, inl dir) =
      let row = get_inode_by_path st.db path in
      either (not e.safe) (st, false) _ (st, false) refl
        (if_true e.is_dir (heal_dir st path e row now) (heal_file s st path e now row e.info) dir
          ∙ ap (λ o. heal_dir st path e o now) found)
  visited_again (r, found, inr (is_pending, on_its_way)) =
      let row = get_inode_by_path st.db path in
      either (not e.safe) (st, false) _ (st, false) refl
        (either e.is_dir (heal_dir st path e row now) (heal_file s st path e now row e.info)
          (st, false) (ap (λ o. heal_dir st path e o now) found)
          (ap (λ o. heal_file s st path e now o e.info) found
            ∙ file_again e.info r is_pending on_its_way))
