-- ===== src/Cache/Inodes.antt =====
-- The statements on the table inodes: internal/mount/cache/db.go and local_content.go.
pub mod Merge
pub mod Candidates
use pigcloud_cli.Common.{
  ℕ, suc, ◌+◌, String, List, [], ◌∷◌, ◌++◌, Bool, true, false, not, ◌&&◌, ◌||◌, Option, none, some,
  ltb, leb, ◌==◌, same, is_empty, if◌then◌else◌, length, keep, any, take, map,
}
use pigcloud_cli.Cache.{Status, synced, pending, rejected, failed, conflict, Inode, Db, status_is}

-- SELECT … WHERE with at most one row to take
unfoldable pub find : (Inode → Bool) → List Inode → Option Inode
find p [] = none
find p (r ∷ rs) = if p r then some r else find p rs

-- UPDATE inodes SET … WHERE
unfoldable pub update : (Inode → Bool) → (Inode → Inode) → List Inode → List Inode
update p f [] = []
update p f (r ∷ rs) = (if p r then f r else r) ∷ update p f rs

abbrev pub has_id : ℕ → Inode → Bool
has_id i r = r.id == i

abbrev pub has_path : String → Inode → Bool
has_path path r = same r.remote_path path

abbrev pub set_rows : Db → List Inode → Db
set_rows d rows = record d { inodes = rows }

unfoldable pub get_inode : Db → ℕ → Option Inode
get_inode d i = find (has_id i) d.inodes

unfoldable pub get_inode_by_path : Db → String → Option Inode
get_inode_by_path d path = find (has_path path) d.inodes

-- COALESCE(NULLIF(new, ''), old)
abbrev pub or_old : String → String → String
or_old new old = if is_empty new then old else new

-- ON CONFLICT(remote_path) DO UPDATE: `new` is excluded, `old` the stored row
unfoldable pub merge : Inode → Inode → Inode
merge new old = record old {
  display_name = new.display_name;
  is_dir = new.is_dir;
  size = new.size;
  mtime = new.mtime;
  cached = new.cached;
  dirty = old.dirty || new.dirty;
  content_hash = new.content_hash;
  local_hash = or_old new.local_hash old.local_hash;
  local_mtime = if new.local_mtime == 0 then old.local_mtime else new.local_mtime;
  sealed_key = new.sealed_key;
  enc_meta = new.enc_meta;
  etag = or_old new.etag old.etag;
  parent_id = new.parent_id;
  status = new.status;
  reason = new.reason;
}

-- the inserted row: the columns that the statement does not name take their defaults
unfoldable pub new_row : Inode → ℕ → Inode
new_row n i = record n { id = i; download_baseline_hash = ""; local_remote_etag = "" }

-- UpsertInode, with the id that it returns
unfoldable pub upsert_inode : Db → Inode → Db × ℕ
upsert_inode d n = elim (get_inode_by_path d n.remote_path) [
  | none ↦ (
    record d { inodes = d.inodes ++ new_row n d.next_inode ∷ []; next_inode = suc d.next_inode },
    d.next_inode,
  )
  | some old ↦ (set_rows d (update (has_path n.remote_path) (merge n) d.inodes), old.id)
]

unfoldable pub delete_inode : Db → String → Db
delete_inode d path = set_rows d (keep (λ r. not (has_path path r)) d.inodes)

unfoldable pub delete_children : Db → ℕ → Db
delete_children d parent = set_rows d (keep (λ r. not (r.parent_id == parent)) d.inodes)

unfoldable pub mark_dirty : Db → ℕ → Db
mark_dirty d i =
    set_rows d (update (has_id i) (λ r. record r { dirty = true; status = pending }) d.inodes)

unfoldable pub mark_synced : Db → ℕ → String → Db
mark_synced d i etag = set_rows d (
    update (has_id i) (λ r. record r { dirty = false; status = synced; reason = ""; etag = etag })
      d.inodes)

unfoldable pub mark_cached : Db → ℕ → String → ℕ → Db
mark_cached d i hash now = set_rows d (
    update (has_id i) (λ r. record r { cached = true; content_hash = hash; last_access = now })
      d.inodes)

unfoldable pub set_inode_size : Db → ℕ → ℕ → Db
set_inode_size d i size = set_rows d (update (has_id i) (λ r. record r { size = size }) d.inodes)

unfoldable pub set_local_content : Db → ℕ → String → ℕ → Db
set_local_content d i hash mtime =
    let mtime' = if is_empty hash then 0 else mtime in
    set_rows d (
      update (has_id i)
        (λ r. record r {
          local_hash = hash;
          local_mtime = mtime';
          download_baseline_hash = hash;
          local_remote_etag = if is_empty hash then "" else r.etag;
        })
        d.inodes)

abbrev pub without_cache : Inode → Inode
without_cache r = record r {
  download_baseline_hash =
      if not (is_empty r.local_hash) then r.local_hash else r.download_baseline_hash;
  cached = false;
  content_hash = "";
  local_hash = "";
  local_mtime = 0;
}

unfoldable pub invalidate_cache : Db → ℕ → Db
invalidate_cache d i = set_rows d (update (has_id i) without_cache d.inodes)

unfoldable pub touch_access : Db → ℕ → ℕ → Db
touch_access d i now = set_rows d (update (has_id i) (λ r. record r { last_access = now }) d.inodes)

unfoldable pub set_sync_status : Db → ℕ → Status → String → Db
set_sync_status d i s why =
    set_rows d (update (has_id i) (λ r. record r { status = s; reason = why }) d.inodes)

unfoldable pub set_pinned : Db → String → Bool → Db
set_pinned d path p = set_rows d (update (has_path path) (λ r. record r { pinned = p }) d.inodes)

-- LocalContentState: local_hash, the baseline, local_remote_etag
pub record ContentState : Type 0 where
  pub current : String
  pub baseline : String
  pub version : String

abbrev state_of : Option Inode → Option ContentState
state_of none = none
state_of (some r) = some (record {
  current = r.local_hash;
  baseline = or_old r.local_hash r.download_baseline_hash;
  version = r.local_remote_etag;
})

unfoldable pub local_content_state : Db → ℕ → Option ContentState
local_content_state d i = state_of (get_inode d i)

unfoldable pub mark_local_conflict : Db → ℕ → String → Db
mark_local_conflict d i why = set_rows d (
    update (has_id i)
      (λ r. record r { cached = false; dirty = true; status = conflict; reason = why }) d.inodes)

unfoldable pub set_remote_version : Db → ℕ → String → Db
set_remote_version d i etag =
    set_rows d (update (has_id i) (λ r. record r { etag = etag }) d.inodes)

unfoldable pub set_local_content_for_version : Db → ℕ → String → ℕ → String → Db
set_local_content_for_version d i hash mtime etag = set_rows d (
    update (has_id i)
      (λ r. record r {
        local_hash = hash;
        local_mtime = mtime;
        download_baseline_hash = hash;
        local_remote_etag = etag;
      })
      d.inodes)

sum_sizes : List Inode → ℕ
sum_sizes [] = 0
sum_sizes (r ∷ rs) = r.size + sum_sizes rs

abbrev pub is_evictable : Inode → Bool
is_evictable r = r.cached && (not r.dirty && not r.pinned)

unfoldable pub evictable_cache_size : Db → ℕ
unfolding sum_sizes
evictable_cache_size d = sum_sizes (keep is_evictable d.inodes)

unfoldable pub total_cache_size : Db → ℕ
unfolding sum_sizes
total_cache_size d = sum_sizes (keep (λ r. r.cached) d.inodes)

abbrev pub shares_blob : String → ℕ → Inode → Bool
shares_blob hash but r = same r.content_hash hash && (r.cached && not (r.id == but))

unfoldable pub count_cached_by_hash : Db → String → ℕ → ℕ
count_cached_by_hash d hash but = length (keep (shares_blob hash but) d.inodes)

-- membership in AllCachedHashes
unfoldable pub cached_hash : Db → String → Bool
cached_hash d hash =
    any (λ r. r.cached && (not (is_empty r.content_hash) && same r.content_hash hash)) d.inodes

insert_by_access : Inode → List Inode → List Inode
insert_by_access r [] = r ∷ []
insert_by_access r (q ∷ qs) =
    if ltb q.last_access r.last_access then q ∷ insert_by_access r qs else r ∷ q ∷ qs

-- ORDER BY last_access ASC; rows of one time stand in id order
sort_by_access : List Inode → List Inode
unfolding insert_by_access
sort_by_access [] = []
sort_by_access (r ∷ rs) = insert_by_access r (sort_by_access rs)

unfoldable pub lru_eviction_candidates : Db → ℕ → List Inode
unfolding sort_by_access
lru_eviction_candidates d limit = take limit (sort_by_access (keep is_evictable d.inodes))

-- DeleteRejected, with the hashes that it returns
unfoldable pub delete_rejected : Db → Db × List String
delete_rejected d = (
  set_rows d (keep (λ r. not (status_is r.status rejected)) d.inodes),
  map (λ r. r.content_hash)
      (keep (λ r. status_is r.status rejected && not (is_empty r.content_hash)) d.inodes),
)

unfoldable pub count_by_status : Db → Status → ℕ
count_by_status d s = length (keep (λ r. status_is r.status s) d.inodes)
