-- ===== src/Cache/Evict/Left.antt =====
-- A blob that no row for eviction has is left in the store: internal/mount/cache/eviction.go.
use pigcloud_cli.Common.{
  if_both, ℕ, String, List, [], ◌∷◌, Bool, true, false, not, ◌||◌, ◌≡◌, ◌∙◌, arith, ltb, ◌==◌, same,
  is_empty, if◌then◌else◌, Option, none, some, keep, All, Bool-cases, inl, inr,
}
use pigcloud_cli.Cache.{Inode, Db}
use pigcloud_cli.Cache.Inodes.{
  has_id, without_cache, invalidate_cache, count_cached_by_hash, is_evictable,
}
use pigcloud_cli.Cache.Inodes.Candidates.{All-candidates}
use pigcloud_cli.Cache.Blobs.{Store, signed_le, is_negative, bytes, has}
use pigcloud_cli.Cache.Evict.{
  Machine, State, release_blob, cache_bytes, evict_one, evict, run_if_needed, until_target,
  measured, enough_fuel, batch_size,
}
use pigcloud_cli.Cache.Evict.Passes.{rounds-keeps, released}
use pigcloud_cli.Cache.Evict.Backed.{has-remove}
use pigcloud_cli.Cache.Evict.Spared.{All-update}

abbrev pub holds : Option Store → String → Bool
holds none hash = false
holds (some s) hash = has s hash

-- Releasing one blob leaves the others.
pub holds-release_blob :
    (m : Machine) (d : Db) (st : Option Store) (hash other : String) (but : ℕ)
    → (is_empty hash || not (same hash other)) ≡ true
    → holds st other ≡ true
    → holds (release_blob m d st hash but) other ≡ true
unfolding release_blob
holds-release_blob m d none hash other but apart h = absurd cc
holds-release_blob m d (some s) hash other but apart h =
    if_both (λ t. holds t other ≡ true) (is_empty hash) (some s) _ h
      (if_both (λ t. holds t other ≡ true) (m.count_fails but) (some s) _ h
        (if_both (λ t. holds t other ≡ true) (ltb 0 (count_cached_by_hash d hash but)) (some s) _ h
          (has-remove m.stuck s hash other ∙ ground (arith, apart, h))))

-- No row that can be evicted has the content.
abbrev pub Apart : String → List Inode → Type 0
Apart hash l = All (λ r. is_evictable r ≡ true → same r.content_hash hash ≡ false) l

cache_bytes-holds :
    (d : Db) (st : Option Store) (hash : String)
    → holds st hash ≡ true
    → holds (cache_bytes d st).1 hash ≡ true
unfolding cache_bytes bytes has
cache_bytes-holds d none hash h = absurd cc
cache_bytes-holds d (some s) hash h = elim (Bool-cases (is_negative s.counter)) [
  | inl below ↦ rw below h
  | inr above ↦ rw above h
]

-- A row that leaves the cache is not evictable.
out-apart :
    (i : ℕ) (e : Inode) (hash : String)
    → (is_evictable e ≡ true → same e.content_hash hash ≡ false)
    → let e' = if e.id == i then without_cache e else e in
      is_evictable e' ≡ true → same e'.content_hash hash ≡ false
out-apart i e hash k = elim (Bool-cases (e.id == i)) [
  | inl hit ↦ rw hit (λ v. absurd cc)
  | inr miss ↦ rw miss k
]

module _ (m : Machine) (hash : String) where
  abbrev Left : State → Type 0
  Left st = (holds st.store hash ≡ true) × Apart hash st.db.inodes

  abbrev Other : Inode → Type 0
  Other r = same r.content_hash hash ≡ false

  candidates : (l : List Inode) → Apart hash l → All Other (keep is_evictable l)
  candidates [] h = tt
  candidates (r ∷ l) h = elim (Bool-cases (is_evictable r)) [
    | inl hit ↦ rw hit (h.0 hit, candidates l h.1)
    | inr miss ↦ rw miss (candidates l h.1)
  ]

  released-Left : (st : State) (r : Inode) → Other r → Left st → Left (released m st r)
  released-Left st r other h = (
    holds-release_blob m st.db st.store r.content_hash hash r.id (ground (arith, other)) h.0,
    h.1,
  )

  measured-Left : (st : State) → Left st → Left (measured st).1
  unfolding measured
  measured-Left st h = (cache_bytes-holds st.db st.store hash h.0, h.1)

  evict_one-Left : (st : State) (r : Inode) → Other r → Left st → Left (evict_one m st r)
  unfolding evict_one invalidate_cache
  evict_one-Left st r other h = (
    (released-Left st r other h).0,
    All-update _ _ (has_id r.id) without_cache (λ e k. out-apart r.id e hash k) st.db.inodes h.1,
  )

  -- An eviction on demand, however it ends, leaves a blob that is in the store and whose content no
  -- evictable row has.
  pub run_if_needed-Left :
      (most target : ℕ) (st : State) → Left st → Left (run_if_needed m most target st).0
  unfolding run_if_needed evict measured
  run_if_needed-Left most target st h =
      if_both (λ (t : State × _). Left t.0) (signed_le (measured st).0 most) _ _
        (measured-Left st h)
        (rounds-keeps m (until_target target) Left Left Other (λ s k. k) released-Left
          (λ s r other free k. measured-Left (evict_one m s r) (evict_one-Left s r other k))
          (λ s k. All-candidates Other s.db batch_size (candidates s.db.inodes k.1))
          (enough_fuel st.db) (measured st).1 (measured st).0 (measured-Left st h)).0
