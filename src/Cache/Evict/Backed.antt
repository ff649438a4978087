-- ===== src/Cache/Evict/Backed.antt =====
-- The blobs that internal/mount/cache/eviction.go and store.go keep for the cached rows.
use pigcloud_cli.Common.{
  ℕ, String, List, [], ◌∷◌, Bool, true, false, not, ◌&&◌, ◌||◌, ◌≡◌, ◌≢◌, refl, arith, ltb, ◌==◌,
  same, same_iff, is_empty, if◌then◌else◌, Option, none, some, length, keep, any, All, Bool-cases,
  inl, inr,
}
use pigcloud_cli.Cache.{Inode, Db}
use pigcloud_cli.Cache.Inodes.{
  update, has_id, without_cache, invalidate_cache, shares_blob, count_cached_by_hash,
}
use pigcloud_cli.Cache.Blobs.{Store, signed_le, is_negative, bytes, is_named, has, remove}
use pigcloud_cli.Cache.Evict.{
  Machine, State, invalidate_error, Mode, release_blob, cache_bytes, evict_one, rounds, evict,
  run_if_needed, until_target, measured, enough_fuel,
}
use pigcloud_cli.Cache.Evict.Passes.{rounds-keeps}
use pigcloud_cli.Cache.Evict.Spared.{All-update}

abbrev pub HasBlob : Store → Inode → Type 0
HasBlob s r = r.cached ≡ true → is_empty r.content_hash ≡ false → has s r.content_hash ≡ true

-- Each row that is in the cache has its blob in the store.
abbrev pub Backed : List Inode → Option Store → Type 0
Backed rows none = Unit
Backed rows (some s) = All (HasBlob s) rows

any-dropped :
    (hash other : String) (l : List (String × ℕ))
    → any (is_named other) (keep (λ b. not (is_named hash b)) l)
      ≡ (any (is_named other) l && not (same hash other))
any-dropped hash other [] = refl
any-dropped hash other ((h, size) ∷ l) =
    ground (arith, same_iff h hash, same_iff h other, same_iff hash other, any-dropped hash other l)

bool_case : (a b : Bool) → (b || not a) ≡ true → a ≡ (a && (false || (false || b)))
bool_case true b h = ground arith
bool_case false b h = refl

still-there :
    (stuck : String → Bool) (s : Store) (hash other : String)
    → (stuck hash || not (has s hash)) ≡ true
    → has s other ≡ (has s other && (not (same hash other) || (false || stuck hash)))
still-there stuck s hash other h = elim (Bool-cases (same hash other)) [
  | inl hit ↦
      let named : hash ≡ other = (same_iff hash other).0 hit in
      let h' : (stuck other || not (has s other)) ≡ true = rw named at h in
      rw hit (rw named (bool_case (has s other) (stuck other) h'))
  | inr miss ↦ rw miss (ground arith)
]

-- Removing a blob leaves the other blobs, and the blob itself if its file stays or has no name.
pub has-remove :
    (stuck : String → Bool) (s : Store) (hash other : String)
    → has (remove stuck s hash).0 other
      ≡ (has s other && (not (same hash other) || (is_empty hash || stuck hash)))
unfolding remove has
has-remove stuck s hash other = elim (Bool-cases (is_empty hash)) [
  | inl none_named ↦ rw none_named (ground arith)
  | inr named ↦ rw named (elim (Bool-cases (stuck hash || not (has s hash))) [
    | inl stays ↦ rw stays (still-there stuck s hash other stays)
    | inr goes ↦ rw (goes, any-dropped hash other s.blobs) (ground arith)
  ])
]

unshared :
    (hash : String) (but : ℕ) (l : List Inode)
    → ltb 0 (length (keep (shares_blob hash but) l)) ≡ false
    → All (λ r. shares_blob hash but r ≡ false) l
unshared hash but [] h = tt
unshared hash but (r ∷ l) h = ground (arith, unshared hash but l)

All-both : (P Q : Inode → Type 0) (l : List Inode) → All P l → All Q l → All (λ r. P r × Q r) l
All-both P Q [] p q = tt
All-both P Q (r ∷ l) p q = ((p.0, q.0), All-both P Q l p.1 q.1)

out-HasBlob :
    (s : Store) (i : ℕ) (r : Inode)
    → ((r.id == i) ≡ false → HasBlob s r)
    → HasBlob s (if r.id == i then without_cache r else r)
out-HasBlob s i r h = elim (Bool-cases (r.id == i)) [
  | inl hit ↦ rw hit (λ c n. absurd cc)
  | inr miss ↦ rw miss (h miss)
]

out_of_cache :
    (i : ℕ) (s : Store) (l : List Inode)
    → All (HasBlob s) l
    → All (HasBlob s) (update (has_id i) without_cache l)
out_of_cache i s l h =
    All-update _ _ (has_id i) without_cache (λ r k. out-HasBlob s i r (λ e. k)) l h

module _ (m : Machine) (i : ℕ) (hash : String) where
  row-removed :
      (s : Store) (r : Inode)
      → HasBlob s r
      → shares_blob hash i r ≡ false
      → (r.id == i) ≡ false
      → HasBlob (remove m.stuck s hash).0 r
  row-removed s r h alone apart c n =
      rw (has-remove m.stuck s hash r.content_hash, h c n)
        (ground
          (arith, c, alone, apart, same_iff hash r.content_hash, same_iff r.content_hash hash))

  release-Backed :
      (d : Db) (st : Option Store)
      → Backed d.inodes st
      → Backed (invalidate_cache d i).inodes (release_blob m d st hash i)
  unfolding invalidate_cache release_blob
  release-Backed d none h = tt
  release-Backed d (some s) h = elim (Bool-cases (is_empty hash)) [
    | inl unnamed ↦ rw (unnamed, release_blob) (out_of_cache i s d.inodes h)
    | inr named ↦
        rw (named, release_blob)
          (elim (Bool-cases (m.count_fails i)) [
            | inl fails ↦ rw fails (out_of_cache i s d.inodes h)
            | inr counts ↦ rw counts (elim (Bool-cases (ltb 0 (count_cached_by_hash d hash i))) [
              | inl shared ↦ rw shared (out_of_cache i s d.inodes h)
              | inr single ↦ rw single (
                  All-update _ _ (has_id i) without_cache
                    (λ r k. out-HasBlob _ i r (row-removed s r k.0 k.1)) d.inodes
                    (All-both _ _ d.inodes h
                      (unshared hash i d.inodes (unfold count_cached_by_hash in single))))
            ])
          ])
  ]

-- A mode whose measure takes no blob away.
abbrev KeepsBlobs : Mode → Type 0
KeepsBlobs mode =
    (st : State)
    → Backed st.db.inodes st.store
    → Backed (mode.measure st).1.db.inodes (mode.measure st).1.store

bytes-Backed :
    (rows : List Inode) (d : Db) (st : Option Store)
    → Backed rows st
    → Backed rows (cache_bytes d st).1
unfolding cache_bytes bytes has
bytes-Backed rows d none h = tt
bytes-Backed rows d (some s) h = elim (Bool-cases (is_negative s.counter)) [
  | inl below ↦ rw below h
  | inr above ↦ rw above h
]

measured-Backed : (target : ℕ) → KeepsBlobs (until_target target)
unfolding measured
measured-Backed target st h = bytes-Backed st.db.inodes st.db st.store h

every : (l : List Inode) → All {0, 0} (λ r. Unit) l
every [] = tt
every (r ∷ l) = (tt, every l)

rounds-Backed :
    (m : Machine) (mode : Mode)
    → KeepsBlobs mode
    → (fuel : ℕ) (st : State) (size : ℕ) → Backed st.db.inodes st.store
    → let (st', o) = rounds m mode fuel st size in
      ((i : ℕ) → o ≢ invalidate_error i) → Backed st'.db.inodes st'.store
rounds-Backed m mode measures fuel st size h =
    (rounds-keeps m mode (λ s. Backed s.db.inodes s.store) (λ s. Unit) (λ r. Unit) (λ s k. tt)
      (λ s r q k. tt)
      (λ s r q free k.
        measures (evict_one m s r)
          (unfold evict_one in release-Backed m r.id r.content_hash s.db s.store k))
      (λ s k. every _) fuel st size h).1

-- No cached row loses its content: where each row in the cache has its blob, it still has after
-- an eviction on demand, the blobs of other rows with the same content included, unless the
-- eviction stopped at a row that could not be invalidated.
pub run_if_needed-Backed :
    (m : Machine) (max_size target : ℕ) (st : State)
    → Backed st.db.inodes st.store
    → ((i : ℕ) → (run_if_needed m max_size target st).1 ≢ invalidate_error i)
    → let st' = (run_if_needed m max_size target st).0 in Backed st'.db.inodes st'.store
unfolding run_if_needed evict measured
run_if_needed-Backed m max_size target st h =
    elim (Bool-cases (signed_le (measured st).0 max_size)) [
      | inl small ↦ rw small (λ e. measured-Backed target st h)
      | inr large ↦ rw large (λ e.
          rounds-Backed m (until_target target) (measured-Backed target) (enough_fuel st.db)
            (measured st).1 (measured st).0 (measured-Backed target st h) e)
    ]
