-- ===== src/Cache/Evict.antt =====
-- Eviction and the sweep of orphaned blobs: internal/mount/cache/eviction.go.
pub mod Ends
pub mod Reached
pub mod Swept
pub mod Backed
pub mod Spared
pub mod Passes
pub mod Left
use pigcloud_cli.Common.{
  ℕ, suc, zero, ◌+◌, String, List, [], ◌∷◌, ◌++◌, Bool, true, false, not, ◌&&◌, ◌||◌, Option, none,
  some, ltb, leb, ◌==◌, is_empty, if◌then◌else◌, length, keep, any,
}
use pigcloud_cli.Cache.{Inode, Db}
use pigcloud_cli.Cache.Inodes.{
  count_cached_by_hash, cached_hash, lru_eviction_candidates, invalidate_cache, total_cache_size,
}
use pigcloud_cli.Cache.Blobs.{Store, bytes, signed_le, remove, list_hashes}

-- What the machine and the mount answer: the inodes in use (SetHooks), the inodes whose count or
-- invalidation fails in the database, the rounds whose query fails, the files that stay.
pub record Machine : Type 0 where
  pub in_use : ℕ → Bool
  pub count_fails : ℕ → Bool
  pub invalidate_fails : ℕ → Bool
  pub query_fails : ℕ → Bool
  pub stuck : String → Bool

-- the database, the store if there is one, and the ids given to onEvict
pub record State : Type 0 where
  pub db : Db
  pub store : Option Store
  pub evicted : List ℕ

pub data Outcome : Type 0 where
  done : Outcome
  no_candidates_error : Outcome
  invalidate_error : ℕ → Outcome
  out_of_fuel : Outcome

-- ReleaseBlob, of a database that is there
unfoldable pub release_blob : Machine → Db → Option Store → String → ℕ → Option Store
release_blob m d none hash but = none
release_blob m d (some s) hash but =
    if is_empty hash
    then some s
    else if m.count_fails but
    then some s
    else if ltb 0 (count_cached_by_hash d hash but)
    then some s
    else some (remove m.stuck s hash).0

-- CacheBytes, of a database that is there
unfoldable pub cache_bytes : Db → Option Store → ℕ × Option Store
cache_bytes d none = (total_cache_size d, none)
cache_bytes d (some s) = let (n, s') = bytes s in (n, some s')

-- What the loop over the candidates leaves: the state, currentSize, progressed, and the inode
-- whose invalidation failed.
pub record Pass : Type 0 where
  pub state : State
  pub size : ℕ
  pub progressed : Bool
  pub failed : Option ℕ

-- The release of one candidate's blob and the row's invalidation.
unfoldable pub evict_one : Machine → State → Inode → State
evict_one m st r = record {
  db = invalidate_cache st.db r.id;
  store = release_blob m st.db st.store r.content_hash r.id;
  evicted = st.evicted ++ r.id ∷ [];
}

unfoldable pub measured : State → ℕ × State
measured st = let (n, s) = cache_bytes st.db st.store in (n, record st { store = s })

-- What the two loops differ in: the test on currentSize, and how it is read anew.
pub record Mode : Type 0 where
  pub enough : ℕ → Bool
  pub measure : State → ℕ × State

unfoldable pub pass : Machine → Mode → Pass → List Inode → Pass
pass m mode p [] = p
pass m mode p (r ∷ rs) = elim (mode.enough p.size) [
  | true ↦ p
  | false ↦ elim (m.in_use r.id) [
    | true ↦ pass m mode p rs
    | false ↦ elim (m.invalidate_fails r.id) [
      | true ↦ record p {
        state = record p.state {
          store = release_blob m p.state.db p.state.store r.content_hash r.id;
        };
        failed = some r.id;
      }
      | false ↦
          let (n, st) = mode.measure (evict_one m p.state r) in
          pass m mode (record { state = st; size = n; progressed = true; failed = none }) rs
    ]
  ]
]

abbrev pub batch_size : ℕ
batch_size = 100

-- the loop over the batches, a round for each unit of fuel
unfoldable pub rounds : Machine → Mode → ℕ → State → ℕ → State × Outcome
rounds m mode zero st size = (st, out_of_fuel)
rounds m mode (suc fuel) st size = elim (mode.enough size) [
  | true ↦ (st, done)
  | false ↦ elim (m.query_fails fuel) [
    | true ↦ (st, no_candidates_error)
    | false ↦
        let p =
          pass m mode (record { state = st; size = size; progressed = false; failed = none })
            (lru_eviction_candidates st.db batch_size) in
        elim p.failed [
          | some i ↦ (p.state, invalidate_error i)
          | none ↦ elim p.progressed [
            | true ↦ rounds m mode fuel p.state p.size
            | false ↦ (p.state, done)
          ]
        ]
  ]
]

abbrev pub is_cached : Inode → Bool
is_cached r = r.cached

-- A round more than there are cached rows.
abbrev pub enough_fuel : Db → ℕ
enough_fuel d = suc (length (keep is_cached d.inodes))

abbrev pub until_target : ℕ → Mode
until_target target = record { enough = λ n. signed_le n target; measure = measured }

abbrev pub until_empty : Mode
until_empty = record { enough = λ n. false; measure = λ st. (0, st) }

-- evict, with the target that int64(float64(maxSize) * 0.90) is
unfoldable pub evict : Machine → ℕ → State → ℕ → State × Outcome
evict m target st size = rounds m (until_target target) (enough_fuel st.db) st size

-- RunIfNeeded
unfoldable pub run_if_needed : Machine → ℕ → ℕ → State → State × Outcome
run_if_needed m max_size target st =
    let (n, st') = measured st in if signed_le n max_size then (st', done) else evict m target st' n

-- ForceEvict
unfoldable pub force_evict : Machine → State → State × Outcome
force_evict m st = rounds m until_empty (enough_fuel st.db) st 0

sweep : Machine → Db → Store → List String → Store × ℕ
sweep m d s [] = (s, 0)
sweep m d s (h ∷ hs) = elim (cached_hash d h) [
  | true ↦ sweep m d s hs
  | false ↦
      let (s', ok) = remove m.stuck s h in
      let (s'', n) = sweep m d s' hs in (s'', if ok then suc n else n)
]

-- GCOrphans, less its sweep of temporary files: the store and the count of the blobs
unfoldable pub gc_orphans : Machine → Db → Store → Store × ℕ
unfolding sweep
gc_orphans m d s = sweep m d s (list_hashes s)
