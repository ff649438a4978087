-- ===== src/Sync/Watch/Synced.antt =====
-- What syncFile records of a changed file: internal/mount/syncer/watcher.go.
use pigcloud_cli.Common.{
  if_true, if_false, ℕ, String, true, false, not, ◌||◌, ◌≡◌, refl, sym, ◌∙◌, ap, subst, ◌⊎◌, inl,
  inr, Option, none, some, arith, same, same_iff, same_refl, is_empty, Bool-cases,
}
use pigcloud_cli.Cache.{
  Status, synced, pending, rejected, failed, conflict, offline, Inode, upload, Db, status_is,
}
use pigcloud_cli.Cache.Inodes.{get_inode_by_path, upsert_inode}
use pigcloud_cli.Cache.Blobs.{Store, has, put_blob}
use pigcloud_cli.Cache.Evict.{Machine, release_blob}
use pigcloud_cli.Cache.Evict as Evict
use pigcloud_cli.Cache.Evict.Left.{holds, holds-release_blob, Apart, run_if_needed-Left}
use pigcloud_cli.Sync.Names.{Refusal, validate_file, to_remote_path}
use pigcloud_cli.Sync.Reconcile.{Info, enqueue}
use pigcloud_cli.Sync.Reconcile.Queued.{
  OnItsWay, Queued, upsert_inode-found, enqueue-rows, same_rows, enqueue-Queued,
}
use pigcloud_cli.Sync.Watch.{
  Setting, State, Local, new_version, is_unchanged, superseded_hash, queued, record_version, put_in,
  made_room, ingested, sync_file, sync_content, sync_found,
}

-- The row is as the server has it, or refused, or edited with its upload on its way.
abbrev pub Followed : Db → Inode → Type 0
Followed d r =
    (r.status ≡ synced)
    ⊎ (r.status ≡ rejected)
    ⊎ ((r.status ≡ pending) × (r.dirty ≡ true) × OnItsWay d r.id)

-- The path's row has the content, which is in the store, and is followed.
abbrev pub Recorded : Evict.State → String → String → Type 0
Recorded c path hash =
    (r : Inode) × (get_inode_by_path c.db path ≡ some r)
    × (r.content_hash ≡ hash)
    × Followed c.db r
    × (holds c.store hash ≡ true)

status_is-synced : (t : Status) → status_is t synced ≡ true → t ≡ synced
status_is-synced synced h = refl
status_is-synced pending h = absurd cc
status_is-synced rejected h = absurd cc
status_is-synced failed h = absurd cc
status_is-synced conflict h = absurd cc
status_is-synced offline h = absurd cc

superseded_hash-apart :
    (row : Option Inode) (hash : String)
    → (is_empty (superseded_hash row hash) || not (same (superseded_hash row hash) hash)) ≡ true
superseded_hash-apart none hash = refl
superseded_hash-apart (some i) hash = elim (Bool-cases (same i.content_hash hash)) [
  | inl hit ↦ rw hit refl
  | inr miss ↦ rw (miss, miss) (ground arith)
]

-- The upload that is on its way is that of the path's row.
row-OnItsWay :
    (d : Db) (path : String) (r : Inode)
    → get_inode_by_path d path ≡ some r
    → Queued d path false
    → OnItsWay d r.id
row-OnItsWay d path r found (r', found', inl impossible) = absurd cc
row-OnItsWay d path r found (r', found', inr (is_pending, way)) =
    let same_row : r' ≡ r = cc in subst (λ (t : Inode). OnItsWay d t.id) same_row way

module _ (s : Setting) (c : Evict.State) (path : String) (l : Local) (f : Info) (hash : String)
    (now : ℕ) (stored : holds c.store hash ≡ true) where
  -- The row of the new version, whether it is refused or not.
  version-Followed :
      (o : Option Refusal)
      → let (d, id) = upsert_inode c.db (new_version s path l f hash o) in
        (r : Inode) × (get_inode_by_path (queued d id path now l.fresh o) path ≡ some r)
        × (r.content_hash ≡ hash)
        × Followed (queued d id path now l.fresh o) r
  version-Followed none =
      let n = new_version s path l f hash none in
      let (d, id) = upsert_inode c.db n in
      let (r, there, same_id, same_status, same_hash, dirty) = upsert_inode-found c.db n in
      let still =
        same_rows d (enqueue d id upload path now l.fresh) path
          (enqueue-rows d id upload path now l.fresh refl)
        ∙ there in
      (
        r,
        still,
        same_hash,
        inr (
            inr (
              same_status,
              dirty refl,
              row-OnItsWay (enqueue d id upload path now l.fresh) path r still
                  (enqueue-Queued d id path path now l.fresh r there same_status same_id),
            )),
      )
  version-Followed (some why) =
      let (r, there, same_id, same_status, same_hash, dirty) =
        upsert_inode-found c.db (new_version s path l f hash (some why)) in
      (r, there, same_hash, inr (inl same_status))

  unchanged-Recorded :
      (row : Option Inode)
      → get_inode_by_path c.db path ≡ row
      → is_unchanged row hash ≡ true
      → Recorded c path hash
  unchanged-Recorded none e h = absurd cc
  unchanged-Recorded (some i) e h = (
    i,
    e,
    ground (arith, h, same_iff i.content_hash hash),
    inl (status_is-synced i.status (ground (arith, h))),
    stored,
  )

  record_version-Recorded : Recorded (record_version s c path l f hash now) path hash
  unfolding record_version
  record_version-Recorded =
      let row = get_inode_by_path c.db path in
      let o = validate_file s.types l.name f.size in
      let (d, id) = upsert_inode c.db (new_version s path l f hash o) in
      let goal = λ (t : Evict.State). Recorded t path hash in
      elim (Bool-cases (is_unchanged row hash)) [
        | inl kept ↦
            subst goal (sym (if_true (is_unchanged row hash) c _ kept))
              (unchanged-Recorded row refl kept)
        | inr changed ↦
            let (r, there, same_hash, followed) = version-Followed o in
            subst goal (sym (if_false (is_unchanged row hash) c _ changed)) (
              r,
              there,
              same_hash,
              followed,
              holds-release_blob s.machine d c.store (superseded_hash row hash) hash id
                  (superseded_hash-apart row hash) stored,
            )
      ]

holds-put_blob : (t : Store) (hash : String) (size : ℕ) → has (put_blob t hash size) hash ≡ true
unfolding put_blob has
holds-put_blob t hash size = elim (Bool-cases (has t hash)) [
  | inl old ↦ rw (old, put_blob) old
  | inr fresh ↦ rw (fresh, put_blob) (rw (same_refl hash) refl)
]

holds-put_in :
    (o : Option Store) (t : Store) (hash : String) (size : ℕ)
    → o ≡ some t
    → holds (put_in o hash size) hash ≡ true
holds-put_in none t hash size e = absurd cc
holds-put_in (some u) t hash size e = holds-put_blob u hash size

made_room-holds :
    (s : Setting) (o : Option (ℕ × ℕ)) (c : Evict.State) (hash : String)
    → (o ≡ none) ⊎ Apart hash c.db.inodes
    → holds c.store hash ≡ true
    → holds (made_room s o c).store hash ≡ true
made_room-holds s none c hash kept h = h
made_room-holds s (some (most, target)) c hash (inl impossible) h = absurd cc
made_room-holds s (some (most, target)) c hash (inr apart) h =
    (run_if_needed-Left s.machine hash most target c (h, apart)).0

-- Once PutFile and the eviction are through, the content is in the store.
ingested-holds :
    (s : Setting) (c : Evict.State) (t : Store) (hash : String) (size : ℕ)
    → c.store ≡ some t
    → (s.limits ≡ none) ⊎ Apart hash c.db.inodes
    → holds (ingested s c hash size).store hash ≡ true
unfolding ingested
ingested-holds s c t hash size there kept =
    made_room-holds s s.limits (record c { store = put_in c.store hash size }) hash kept
      (holds-put_in c.store t hash size there)

-- A file that can be read and stored is recorded by syncFile with its content: afterwards the row of
-- its path has the content's hash, the store has the content, and the row is synchronized, refused,
-- or marked as edited and pending with an upload waiting or claimed in the queue, unless the mount
-- is read-only. This is where no evictor is set or no row that it may evict has the same content.
pub sync_file-Recorded :
    (s : Setting) (st : State) (l : Local) (now : ℕ) (f : Info) (t : Store) (hash : String)
    (size : ℕ)
    → l.safe ≡ true
    → l.still_safe ≡ true
    → l.is_dir ≡ false
    → l.info ≡ some f
    → l.ingest ≡ some (hash, size)
    → st.cache.store ≡ some t
    → (s.limits ≡ none) ⊎ Apart hash st.cache.db.inodes
    → Recorded (sync_file s st l now).cache (to_remote_path s.base l.rel) hash
unfolding sync_file
sync_file-Recorded s st l now f t hash size safe still file info ingest there kept =
    let reached : sync_file s st l now ≡ sync_content s st l now f (some (hash, size)) =
      if_false (not l.safe) st _ (ap not safe)
      ∙ ap (λ o. sync_found s st l now o) info
      ∙ if_false l.is_dir st _ file
      ∙ if_false (not l.still_safe) st _ (ap not still)
      ∙ ap (λ o. sync_content s st l now f o) ingest in
    subst (λ (u : State). Recorded u.cache (to_remote_path s.base l.rel) hash) (sym reached)
      (record_version-Recorded s (ingested s st.cache hash size) (to_remote_path s.base l.rel) l f
        hash now (ingested-holds s st.cache t hash size there kept))
