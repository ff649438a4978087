-- ===== src/Cache/Evict/Spared.antt =====
-- The rows that the loops of internal/mount/cache/eviction.go leave alone.
use pigcloud_cli.Common.{
  ℕ, List, [], ◌∷◌, Bool, true, false, ◌≡◌, refl, sym, ◌∙◌, ◌⊎◌, arith, ◌==◌, ==_iff, if◌then◌else◌,
  some, keep, All, Bool-cases, inl, inr,
}
use pigcloud_cli.Cache.{Inode}
use pigcloud_cli.Cache.Inodes.{
  find, update, has_id, get_inode, without_cache, invalidate_cache, lru_eviction_candidates,
  is_evictable,
}
use pigcloud_cli.Cache.Inodes.Merge.{find-update, on_some}
use pigcloud_cli.Cache.Inodes.Candidates.{All-candidates}
use pigcloud_cli.Cache.Blobs.{signed_le}
use pigcloud_cli.Cache.Evict.{
  Machine, State, Mode, evict_one, rounds, batch_size, evict, run_if_needed, force_evict,
  until_target, until_empty, measured, enough_fuel,
}
use pigcloud_cli.Cache.Evict.Passes.{rounds-keeps}
use pigcloud_cli.Cache.Evict.Ends.{MeasuresOnly, measured-db}

-- The id is the table's primary key: every row is the one that its id finds.
abbrev pub Keyed : List Inode → Type 0
Keyed l = All (λ e. find (has_id e.id) l ≡ some e) l

-- not for eviction: dirty, pinned, out of the cache, or in use
abbrev pub Spared : Machine → Inode → Type 0
Spared m r = (m.in_use r.id ≡ true) ⊎ (is_evictable r ≡ false)

pub All-update :
    (P Q : Inode → Type 0) (p : Inode → Bool) (f : Inode → Inode)
    → ((e : Inode) → P e → Q (if p e then f e else e))
    → (l : List Inode) → All P l
    → All Q (update p f l)
unfolding update
All-update P Q p f h [] a = tt
All-update P Q p f h (e ∷ l) a = (h e a.0, All-update P Q p f h l a.1)

find-invalidate :
    (i j : ℕ) (l : List Inode)
    → find (has_id j) (update (has_id i) without_cache l)
      ≡ on_some (λ r. if r.id == i then without_cache r else r) (find (has_id j) l)
find-invalidate i j l = find-update (has_id j) (has_id i) without_cache (λ r. refl) l

if-id : (i : ℕ) (e : Inode) → (if e.id == i then without_cache e else e).id ≡ e.id
if-id i e = ground arith

Keyed-invalidate : (i : ℕ) (l : List Inode) → Keyed l → Keyed (update (has_id i) without_cache l)
Keyed-invalidate i l h =
    All-update _ _ (has_id i) without_cache
      (λ e k. rw (if-id i e, find-invalidate i e.id l, k) refl) l h

some-injective : {e r : Inode} → some e ≡ some r → e ≡ r
some-injective h = cc

other-id :
    (i j : ℕ) (used : Bool) → ((i == j) ≡ true → used ≡ true) → used ≡ false → (j == i) ≡ false
other-id i j used q free = ground (arith, ==_iff i j, ==_iff j i)

Spared-in_use :
    (m : Machine) (r e : Inode) → is_evictable e ≡ true → Spared m r → e ≡ r → m.in_use e.id ≡ true
Spared-in_use m r e v (inl used) h = rw h used
Spared-in_use m r e v (inr out) h = absurd (cc (v, h, out))

All-evictable :
    {Q : Inode → Type 0} (rows l : List Inode)
    → All (λ e. find (has_id e.id) rows ≡ some e) l
    → ((e : Inode) → is_evictable e ≡ true → find (has_id e.id) rows ≡ some e → Q e)
    → All Q (keep is_evictable l)
All-evictable rows [] h f = tt
All-evictable rows (e ∷ l) h f = elim (Bool-cases (is_evictable e)) [
  | inl hit ↦ rw hit (f e hit h.0, All-evictable rows l h.1 f)
  | inr miss ↦ rw miss (All-evictable rows l h.1 f)
]

module _ (m : Machine) (r : Inode) (spared : Spared m r) where
  abbrev Holds : State → Type 0
  Holds st = Keyed st.db.inodes × (find (has_id r.id) st.db.inodes ≡ some r)

  candidate-Fit :
      (l : List Inode) (e : Inode)
      → find (has_id r.id) l ≡ some r
      → is_evictable e ≡ true
      → find (has_id e.id) l ≡ some e
      → (e.id == r.id) ≡ true
      → m.in_use e.id ≡ true
  candidate-Fit l e there v k same_id =
      let same_row : some e ≡ some r = sym k ∙ (rw ((==_iff e.id r.id).0 same_id) there) in
      Spared-in_use m r e v spared (some-injective same_row)

  step :
      (mode : Mode) (only : MeasuresOnly mode) (st : State) (e : Inode)
      → ((e.id == r.id) ≡ true → m.in_use e.id ≡ true)
      → m.in_use e.id ≡ false
      → Holds st
      → Holds (mode.measure (evict_one m st e)).1
  unfolding evict_one invalidate_cache
  step mode only st e q free h = rw (only (evict_one m st e)) (
    Keyed-invalidate e.id st.db.inodes h.0,
    find-invalidate e.id r.id st.db.inodes
        ∙ rw (h.1, other-id e.id r.id (m.in_use e.id) q free) refl,
  )

  fit :
      (st : State)
      → Holds st
      → All
          (λ e. (e.id == r.id) ≡ true → m.in_use e.id ≡ true)
          (lru_eviction_candidates st.db batch_size)
  fit st h =
      All-candidates _ st.db batch_size (
        All-evictable st.db.inodes st.db.inodes h.0 (λ e v k. candidate-Fit st.db.inodes e h.1 v k))

  rounds-Spared :
      (mode : Mode) (only : MeasuresOnly mode) (fuel : ℕ) (st : State) (size : ℕ)
      → Holds st
      → get_inode (rounds m mode fuel st size).0.db r.id ≡ some r
  unfolding get_inode
  rounds-Spared mode only fuel st size h =
      (rounds-keeps m mode Holds Holds (λ e. (e.id == r.id) ≡ true → m.in_use e.id ≡ true)
        (λ s k. k) (λ s e q k. k) (step mode only) fit fuel st size h).0.1

run_if_needed-Spared :
    (m : Machine) (max_size target : ℕ) (st : State) (r : Inode)
    → Keyed st.db.inodes
    → get_inode st.db r.id ≡ some r
    → Spared m r
    → get_inode (run_if_needed m max_size target st).0.db r.id ≡ some r
unfolding run_if_needed evict measured get_inode
run_if_needed-Spared m max_size target st r keyed there spared =
    elim (Bool-cases (signed_le (measured st).0 max_size)) [
      | inl small ↦ rw small there
      | inr large ↦ rw large (
          rounds-Spared m r spared (until_target target) (measured-db target) (enough_fuel st.db)
            (measured st).1 (measured st).0 (keyed, there))
    ]

-- Eviction spares what it must: a row that is dirty, pinned, not in the cache or in use is the
-- same row after an eviction on demand or by force, in a table where each row is found by its
-- id, however the eviction ends.
pub evict-Spared :
    (m : Machine) (max_size target : ℕ) (st : State) (r : Inode)
    → Keyed st.db.inodes
    → get_inode st.db r.id ≡ some r
    → Spared m r
    → (get_inode (run_if_needed m max_size target st).0.db r.id ≡ some r)
      × (get_inode (force_evict m st).0.db r.id ≡ some r)
unfolding force_evict get_inode
evict-Spared m max_size target st r keyed there spared = (
  run_if_needed-Spared m max_size target st r keyed there spared,
  rounds-Spared m r spared until_empty (λ s. refl) (enough_fuel st.db) st 0 (keyed, there),
)
