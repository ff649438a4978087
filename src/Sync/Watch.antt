-- ===== src/Sync/Watch.antt =====
-- The watcher: what an event of the local folder does to the database and the content store.
-- internal/mount/syncer/watcher.go, without the watches of the system, the timers' running out, the
-- worker goroutines and the log. Times are in seconds.
pub mod Synced
pub mod Removed
pub mod Events
use pigcloud_cli.Common.{
  ℕ, String, List, [], ◌∷◌, ◌++◌, Bool, true, false, not, ◌&&◌, ◌||◌, Option, none, some, same,
  if◌then◌else◌, keep,
}
use pigcloud_cli.Cache.{
  Status, synced, pending, rejected, conflict, Inode, upload, mkdir, delete, Db, status_is,
}
use pigcloud_cli.Cache.Inodes.{get_inode_by_path, upsert_inode, delete_inode}
use pigcloud_cli.Cache.Queue.{delete_writeback_by_inode}
use pigcloud_cli.Cache.Blobs.{Store, put_blob}
use pigcloud_cli.Cache.Evict.{Machine, release_blob, run_if_needed}
use pigcloud_cli.Cache.Evict as Evict
use pigcloud_cli.Sync.Names.{
  FileTypes, Refusal, validate_file, validate_dir_name, should_ignore, has_prefix, to_remote_path,
}
use pigcloud_cli.Sync.Reconcile.{Info, new_inode, enqueue}

-- The watcher's folder on the server, the file types, the wording of a refusal, the machine, and
-- the evictor's maximal and target sizes, where there is one.
pub record Setting : Type 0 where
  pub base : String
  pub types : FileTypes
  pub wording : Refusal → String
  pub machine : Machine
  pub limits : Option (ℕ × ℕ)

-- the database, the store and the ids evicted, and the paths whose timers run
pub record State : Type 0 where
  pub cache : Evict.State
  pub timers : List String

-- A path of the folder: whether no link leads out of it, now and before its content is read, what
-- os.Stat gives, and the hash and the size on disk that PutFile makes of it.
pub record Local : Type 0 where
  pub rel : String
  pub name : String
  pub safe : Bool
  pub still_safe : Bool
  pub is_dir : Bool
  pub info : Option Info
  pub ingest : Option (String × ℕ)
  pub fresh : String

-- the row that syncFile upserts
abbrev pub new_version : Setting → String → Local → Info → String → Option Refusal → Inode
new_version s path l f hash none =
    record (new_inode path l.name false f.size f.mtime true pending "") {
      cached = true;
      content_hash = hash;
    }
new_version s path l f hash (some why) =
    record (new_inode path l.name false f.size f.mtime true rejected (s.wording why)) {
      cached = true;
      content_hash = hash;
    }

abbrev pub is_unchanged : Option Inode → String → Bool
is_unchanged none hash = false
is_unchanged (some i) hash = same i.content_hash hash && status_is i.status synced

abbrev pub superseded_hash : Option Inode → String → String
superseded_hash none hash = ""
superseded_hash (some i) hash = if same i.content_hash hash then "" else i.content_hash

abbrev pub queued : Db → ℕ → String → ℕ → String → Option Refusal → Db
queued d id path now fresh none = enqueue d id upload path now fresh
queued d id path now fresh (some why) = d

-- syncFile once the content is in the store
unfoldable pub record_version :
    Setting → Evict.State → String → Local → Info → String → ℕ → Evict.State
record_version s c path l f hash now =
    let existing = get_inode_by_path c.db path in
    let refusal = validate_file s.types l.name f.size in
    let (d, id) = upsert_inode c.db (new_version s path l f hash refusal) in
    if is_unchanged existing hash then c else record c {
      db = queued d id path now l.fresh refusal;
      store = release_blob s.machine d c.store (superseded_hash existing hash) id;
    }

abbrev pub put_in : Option Store → String → ℕ → Option Store
put_in none hash size = none
put_in (some t) hash size = some (put_blob t hash size)

abbrev pub made_room : Setting → Option (ℕ × ℕ) → Evict.State → Evict.State
made_room s none c = c
made_room s (some (most, target)) c = (run_if_needed s.machine most target c).0

-- PutFile and RunIfNeeded of syncFile
unfoldable pub ingested : Setting → Evict.State → String → ℕ → Evict.State
ingested s c hash size = made_room s s.limits (record c { store = put_in c.store hash size })

abbrev pub sync_content : Setting → State → Local → ℕ → Info → Option (String × ℕ) → State
sync_content s st l now f none = st
sync_content s st l now f (some (hash, size)) = record st {
  cache =
      record_version s (ingested s st.cache hash size) (to_remote_path s.base l.rel) l f hash now;
}

abbrev pub sync_found : Setting → State → Local → ℕ → Option Info → State
sync_found s st l now none = st
sync_found s st l now (some f) =
    if l.is_dir then st else if not l.still_safe then st else sync_content s st l now f l.ingest

-- syncFile
unfoldable pub sync_file : Setting → State → Local → ℕ → State
sync_file s st l now = if not l.safe then st else sync_found s st l now l.info

-- handleRemove of a path with a row
unfoldable pub remove_row : Db → String → Inode → ℕ → String → Db
remove_row d path i now fresh =
    if not (status_is i.status synced) && not (status_is i.status conflict)
    then delete_inode (delete_writeback_by_inode d i.id) path
    else enqueue d i.id delete path now fresh

abbrev pub remove_found : Db → String → Option Inode → ℕ → String → Db
remove_found d path none now fresh = d
remove_found d path (some i) now fresh = remove_row d path i now fresh

abbrev pub set_db : State → Db → State
set_db st d = record st { cache = record st.cache { db = d } }

-- handleRemove
unfoldable pub handle_remove : Setting → State → Local → ℕ → State
handle_remove s st l now =
    if not l.safe
    then st
    else let path = to_remote_path s.base l.rel in
      set_db st (remove_found st.cache.db path (get_inode_by_path st.cache.db path) now l.fresh)

-- scheduleSync: a timer that runs is started anew
unfoldable pub schedule_sync : State → String → State
schedule_sync st rel = record st { timers = keep (λ r. not (same r rel)) st.timers ++ rel ∷ [] }

-- handleWrite
abbrev pub write_found : State → Local → Option Info → State
write_found st l none = st
write_found st l (some f) = if l.is_dir then st else schedule_sync st l.rel

unfoldable pub handle_write : State → Local → State
handle_write st l = if not l.safe then st else write_found st l l.info

-- What stands in the folder at a path.
mutual
  pub data Found : Type 0 where
    found : Local → Founds → Found

  pub data Founds : Type 0 where
    nil : Founds
    cons : Found → Founds → Founds

-- whether enqueueExistingChildren leaves a name out
abbrev pub is_left_out : Local → Bool
is_left_out l = should_ignore l.name || same l.name ".pigcloud"

-- the new row and its entry
unfoldable pub create_dir : State → String → Local → ℕ → State
create_dir st path l now =
    let (d, id) = upsert_inode st.cache.db (new_inode path l.name true 0 now false pending "") in
    set_db st (enqueue d id mkdir path now l.fresh)

abbrev has_row : Option Inode → Bool
has_row none = false
has_row (some i) = true

-- whether handleCreate goes on with a directory
abbrev pub is_new_dir : Setting → State → Local → Bool
is_new_dir s st l =
    validate_dir_name l.name
    && not (has_row (get_inode_by_path st.cache.db (to_remote_path s.base l.rel)))

abbrev pub is_seen : Local → Option Info → Bool
is_seen l none = false
is_seen l (some f) = l.safe

-- handleCreate and enqueueExistingChildren
unfoldable mutual
  pub handle_create : Setting → ℕ → Found → State → State
  handle_create s now (found l below) st = elim (is_seen l l.info) [
    | false ↦ st
    | true ↦ elim l.is_dir [
      | false ↦ schedule_sync st l.rel
      | true ↦ elim (is_new_dir s st l) [
        | false ↦ st
        | true ↦ enqueue_children s now below (create_dir st (to_remote_path s.base l.rel) l now)
      ]
    ]
  ]

  pub enqueue_children : Setting → ℕ → Founds → State → State
  enqueue_children s now nil st = st
  enqueue_children s now (cons (found l below) fs) st =
      enqueue_children s now fs (elim (is_left_out l) [
        | true ↦ st
        | false ↦ elim l.is_dir [
          | true ↦ handle_create s now (found l below) st
          | false ↦ schedule_sync st l.rel
        ]
      ])

-- fsnotify.Event: its flags
pub record Event : Type 0 where
  pub created : Bool
  pub written : Bool
  pub removed : Bool
  pub renamed : Bool

abbrev pub local_of : Found → Local
local_of (found l below) = l

-- handleEvent; `suppressed` is whether the syncer itself writes the path
unfoldable pub handle_event : Setting → ℕ → Event → Bool → Found → State → State
handle_event s now v suppressed here st =
    let l = local_of here in
    if should_ignore l.name
    then st
    else if has_prefix l.rel ".pigcloud"
    then st
    else if suppressed
    then st
    else if v.created
    then handle_create s now here st
    else if v.written
    then handle_write st l
    else if v.removed || v.renamed
    then handle_remove s st l now
    else st
