-- ===== src/Sync/Reconcile/Edits.antt =====
-- No walk of the reconciler loses an edit or an upload: internal/mount/syncer/reconciler.go.
use pigcloud_cli.Common.{
  ℕ, String, Bool, true, false, ◌≡◌, refl, inl, inr, Option, none, some, if_both, Bool-cases,
  Option-cases, is_empty, same, not, ◌&&◌,
}
use pigcloud_cli.Cache.{
  Status, synced, pending, rejected, failed, conflict, offline, Inode, Action, upload, mkdir,
  rename, upload_failure, download_failure, Extra, Db, action_is,
}
use pigcloud_cli.Cache.Inodes.{
  get_inode_by_path, upsert_inode, set_local_content, ContentState, local_content_state,
}
use pigcloud_cli.Cache.Queue.{
  enqueue_writeback, has_active_writeback, delete_failed_upload_writebacks,
}
use pigcloud_cli.Cache.Failures.{get_sync_failure}
use pigcloud_cli.Sync.Kept.{
  Keeps, Keeps-refl, Keeps-trans, upsert_inode-Keeps, set_sync_status-Keeps,
  set_local_content-Keeps, set_local_content_for_version-Keeps, mark_local_conflict-Keeps,
}
use pigcloud_cli.Sync.Kept.Uploads.{enqueue_writeback-Keeps, delete_failed_upload_writebacks-Keeps}
use pigcloud_cli.Sync.Names.{Refusal, validate_file, to_remote}
use pigcloud_cli.Sync.Reconcile.{
  Setting, State, Info, LocalEntry, new_inode, new_file, enqueue, heal_dir, queue_validated,
  queue_new_file, superseding, supersede, requeue_upload, upload_latched, is_there, heal_failed,
  remote_unchanged, heal_synced, heal_pending, heal_row, heal_file, heal_entry,
}
use pigcloud_cli.Sync.Reconcile.Walk.{
  Tree, Trees, node, nil, cons, skipped, has_own_path, visited, walk, walk_all, reconcile,
}

pub enqueue-Keeps :
    (d : Db) (inode : ℕ) (a : Action) (path : String) (now : ℕ) (fresh : String)
    → action_is a rename ≡ false
    → Keeps d (enqueue d inode a path now fresh)
unfolding enqueue
enqueue-Keeps d inode a path now fresh other =
    let x : Extra = record { idempotency_key = ""; target = "" } in
    elim (Option-cases (enqueue_writeback d inode a path x now fresh)) [
      | inl refused ↦ rw (refused, enqueue) (Keeps-refl d)
      | inr (d', e) ↦
          rw (e, enqueue) (enqueue_writeback-Keeps d d' inode a path x now fresh other e)
    ]

-- an upsert, and an entry for its row
pub added-Keeps :
    (d : Db) (n : Inode) (a : Action) (path : String) (now : ℕ) (fresh : String)
    → action_is a rename ≡ false
    → let (d', id) = upsert_inode d n in Keeps d (enqueue d' id a path now fresh)
added-Keeps d n a path now fresh other =
    let d' = (upsert_inode d n).0 in
    Keeps-trans d d' (enqueue d' (upsert_inode d n).1 a path now fresh) (upsert_inode-Keeps d n)
      (enqueue-Keeps d' (upsert_inode d n).1 a path now fresh other)

heal_dir-Keeps :
    (st : State) (path : String) (e : LocalEntry) (row : Option Inode) (now : ℕ)
    → Keeps st.db (heal_dir st path e row now).0.db
unfolding heal_dir
heal_dir-Keeps st path e (some i) now = Keeps-refl st.db
heal_dir-Keeps st path e none now =
    added-Keeps st.db (new_inode path e.name true 0 now false pending "") mkdir path now e.fresh
      refl

module _ (s : Setting) (st : State) (e : LocalEntry) (now : ℕ) (f : Info) where
  queue_validated-Keeps :
      (path : String) (refusal : Option Refusal)
      → Keeps st.db (queue_validated s st path e f now refusal).0.db
  unfolding queue_validated
  queue_validated-Keeps path (some why) = upsert_inode-Keeps st.db _
  queue_validated-Keeps path none =
      added-Keeps st.db (new_file path e f pending "") upload path now e.fresh refl

  queue_new_file-Keeps : (path : String) → Keeps st.db (queue_new_file s st path e f now).0.db
  unfolding queue_new_file
  queue_new_file-Keeps path = queue_validated-Keeps path (validate_file s.types e.name f.size)

  supersede-Keeps : (i : Inode) → Keeps st.db (supersede s st e i f now).db
  unfolding supersede
  supersede-Keeps i =
      let d = delete_failed_upload_writebacks st.db i.id in
      let (d', id) = upsert_inode d (superseding i f) in
      let d'' = set_local_content d' id "" 0 in
      Keeps-trans st.db d'' (enqueue d'' id upload i.remote_path now e.fresh)
        (Keeps-trans st.db d' d''
          (Keeps-trans st.db d d' (delete_failed_upload_writebacks-Keeps st.db i.id)
            (upsert_inode-Keeps d (superseding i f)))
          (set_local_content-Keeps d' id "" 0))
        (enqueue-Keeps d'' id upload i.remote_path now e.fresh refl)

  requeue_upload-Keeps : (i : Inode) → Keeps st.db (requeue_upload s st e i f now).0.db
  unfolding requeue_upload
  requeue_upload-Keeps i = elim (Option-cases (validate_file s.types i.display_name f.size)) [
    | inr (why, refused) ↦
        rw (refused, requeue_upload) (set_sync_status-Keeps st.db i.id rejected (s.wording why))
    | inl valid ↦
        rw (valid, requeue_upload)
          (elim (Bool-cases (has_active_writeback st.db i.id upload)) [
            | inl active ↦ rw active (Keeps-refl st.db)
            | inr idle ↦ rw idle (supersede-Keeps i)
          ])
  ]

  heal_failed-Keeps : (i : Inode) → Keeps st.db (heal_failed s st e i f now).0.db
  unfolding heal_failed
  heal_failed-Keeps i =
      let latched = upload_latched (get_sync_failure st.db i.id upload_failure) now in
      let stalled = not i.dirty && is_there (get_sync_failure st.db i.id download_failure) in
      elim (Bool-cases latched) [
        | inl stays ↦ rw stays (Keeps-refl st.db)
        | inr due ↦ rw due (elim (Bool-cases stalled) [
          | inl stays ↦ rw stays (Keeps-refl st.db)
          | inr goes ↦ rw goes (requeue_upload-Keeps i)
        ])
      ]

  heal_synced-Keeps :
      (i : Inode) (c : Option ContentState) (digest : Option String)
      → Keeps st.db (heal_synced s st e i f now c digest).0.db
  unfolding heal_synced
  heal_synced-Keeps i none digest = Keeps-refl st.db
  heal_synced-Keeps i (some c) none = elim (Bool-cases (is_empty c.baseline)) [
    | inl bare ↦ rw bare (mark_local_conflict-Keeps st.db i.id _)
    | inr based ↦ rw based (Keeps-refl st.db)
  ]
  heal_synced-Keeps i (some c) (some sum) = elim (Bool-cases (is_empty c.baseline)) [
    | inl bare ↦ rw bare (mark_local_conflict-Keeps st.db i.id _)
    | inr based ↦ rw based (elim (Bool-cases (same sum c.baseline)) [
      | inl as_it_was ↦ rw as_it_was (elim (Bool-cases (is_empty c.current)) [
        | inl bare ↦ rw bare (Keeps-refl st.db)
        | inr known ↦ rw known (set_local_content_for_version-Keeps st.db i.id _ _ _)
      ])
      | inr edited ↦ rw edited (elim (Bool-cases (remote_unchanged c i)) [
        | inl unchanged ↦ rw unchanged (requeue_upload-Keeps i)
        | inr changed ↦ rw changed (mark_local_conflict-Keeps st.db i.id _)
      ])
    ])
  ]

  heal_pending-Keeps : (path : String) (i : Inode) → Keeps st.db (heal_pending st path e i now).0.db
  unfolding heal_pending
  heal_pending-Keeps path i = elim (Bool-cases (has_active_writeback st.db i.id upload)) [
    | inl active ↦ rw active (Keeps-refl st.db)
    | inr idle ↦ rw idle (enqueue-Keeps st.db i.id upload path now e.fresh refl)
  ]

  heal_row-Keeps :
      (path : String) (i : Inode) (status : Status)
      → Keeps st.db (heal_row s st path e i f now status).0.db
  unfolding heal_row
  heal_row-Keeps path i rejected = Keeps-refl st.db
  heal_row-Keeps path i conflict = Keeps-refl st.db
  heal_row-Keeps path i offline = Keeps-refl st.db
  heal_row-Keeps path i failed = heal_failed-Keeps i
  heal_row-Keeps path i synced = heal_synced-Keeps i (local_content_state st.db i.id) e.digest
  heal_row-Keeps path i pending = heal_pending-Keeps path i

heal_file-Keeps :
    (s : Setting) (st : State) (e : LocalEntry) (now : ℕ) (path : String) (row : Option Inode)
    (info : Option Info)
    → Keeps st.db (heal_file s st path e now row info).0.db
heal_file-Keeps s st e now path row none = Keeps-refl st.db
heal_file-Keeps s st e now path none (some f) = queue_new_file-Keeps s st e now f path
heal_file-Keeps s st e now path (some i) (some f) = heal_row-Keeps s st e now f path i i.status

pub heal_entry-Keeps :
    (s : Setting) (st : State) (path : String) (e : LocalEntry) (now : ℕ)
    → Keeps st.db (heal_entry s st path e now).0.db
unfolding heal_entry
heal_entry-Keeps s st path e now =
    let row = get_inode_by_path st.db path in
    let kept = λ (t : State × Bool). Keeps st.db t.0.db in
    if_both kept (not e.safe) (st, false) _ (Keeps-refl st.db)
      (if_both kept e.is_dir (heal_dir st path e row now) (heal_file s st path e now row e.info)
        (heal_dir-Keeps st path e row now) (heal_file-Keeps s st e now path row e.info))

visited-Keeps :
    (s : Setting) (base : String) (now : ℕ) (e : LocalEntry) (st : State) (n : ℕ)
    → Keeps st.db (visited s base now e (st, n)).0.db
visited-Keeps s base now e st n = elim (Bool-cases (has_own_path base e)) [
  | inr root ↦ rw root (Keeps-refl st.db)
  | inl own ↦ rw own (heal_entry-Keeps s st (to_remote base e.rel) e now)
]

mutual
  unfolding walk

  walk-Keeps :
      (s : Setting) (base : String) (now : ℕ) (t : Tree) (acc : State × ℕ)
      → Keeps acc.0.db (walk s base now t acc).0.db
  walk-Keeps s base now (node e below) acc =
      let acc' = visited s base now e acc in
      elim (skipped e)
        as (λ b.
          Keeps acc.0.db
            (elim b as (λ c. State × ℕ) [
              | true ↦ acc
              | false ↦ walk_all s base now below acc'
            ]).0.db) [
              | true ↦ Keeps-refl acc.0.db
              | false ↦
                  Keeps-trans acc.0.db acc'.0.db (walk_all s base now below acc').0.db
                    (visited-Keeps s base now e acc.0 acc.1) (walk_all-Keeps s base now below acc')
            ]

  walk_all-Keeps :
      (s : Setting) (base : String) (now : ℕ) (ts : Trees) (acc : State × ℕ)
      → Keeps acc.0.db (walk_all s base now ts acc).0.db
  walk_all-Keeps s base now nil acc = Keeps-refl acc.0.db
  walk_all-Keeps s base now (cons t ts) acc =
      let acc' = walk s base now t acc in
      Keeps-trans acc.0.db acc'.0.db (walk_all s base now ts acc').0.db
        (walk-Keeps s base now t acc) (walk_all-Keeps s base now ts acc')

-- Whatever the local folder holds, a walk of the reconciler takes no row out of the database, moves
-- none to another path or id and clears no pending edit; and an inode that had an upload waiting or
-- claimed in the queue still has one.
pub reconcile-Keeps :
    (s : Setting) (base : String) (now : ℕ) (t : Tree) (st : State)
    → Keeps st.db (reconcile s base now t st).0.db
unfolding reconcile
reconcile-Keeps s base now t st = walk-Keeps s base now t (st, 0)
