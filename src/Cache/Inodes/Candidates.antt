-- ===== src/Cache/Inodes/Candidates.antt =====
-- What holds of the candidates of LRUEvictionCandidates in internal/mount/cache/db.go.
use pigcloud_cli.Common.{
  ℕ, List, [], ◌∷◌, Bool, true, ◌&&◌, ◌≡◌, arith, ◌==◌, keep, any, All, All-take, Bool-cases, inl,
  inr,
}
use pigcloud_cli.Cache.{Inode, Db}
use pigcloud_cli.Cache.Inodes.{
  is_evictable, insert_by_access, sort_by_access, lru_eviction_candidates,
}

-- A row of the id that is in the cache.
abbrev pub cached_at : ℕ → Inode → Bool
cached_at i r = r.id == i && r.cached

-- What all rows of the table have, all candidates have.
module _ (P : Inode → Type 0) where
  All-insert : (r : Inode) (l : List Inode) → P r → All P l → All P (insert_by_access r l)
  unfolding insert_by_access
  All-insert r [] h hs = (h, tt)
  All-insert r (q ∷ l) h hs = ground (arith, All-insert r l h hs.1)

  All-sort : (l : List Inode) → All P l → All P (sort_by_access l)
  unfolding sort_by_access
  All-sort [] h = tt
  All-sort (r ∷ l) h = All-insert r (sort_by_access l) h.0 (All-sort l h.1)

  pub All-candidates :
      (d : Db) (limit : ℕ)
      → All P (keep is_evictable d.inodes)
      → All P (lru_eviction_candidates d limit)
  unfolding lru_eviction_candidates
  All-candidates d limit h = All-take P limit _ (All-sort _ h)

any-grows : (p : Inode → Bool) (r : Inode) (l : List Inode) → any p l ≡ true → any p (r ∷ l) ≡ true
any-grows p r l h = ground arith

pub All-weaken :
    {P Q : Inode → Type 0} → ((e : Inode) → P e → Q e) → (l : List Inode) → All P l → All Q l
All-weaken f [] h = tt
All-weaken f (e ∷ l) h = (f e h.0, All-weaken f l h.1)

-- Each row of the table that is evictable has its id in the cache.
pub kept-cached : (l : List Inode) → All (λ r. any (cached_at r.id) l ≡ true) (keep is_evictable l)
kept-cached [] = tt
kept-cached (r ∷ l) = elim (Bool-cases (is_evictable r)) [
  | inl hit ↦
      rw hit (ground arith, All-weaken (λ e h. any-grows (cached_at e.id) r l h) _ (kept-cached l))
  | inr miss ↦ rw miss (All-weaken (λ e h. any-grows (cached_at e.id) r l h) _ (kept-cached l))
]
