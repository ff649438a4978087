-- ===== src/Cache/Evict/Ends.antt =====
-- The loops of internal/mount/cache/eviction.go end.
use pigcloud_cli.Common.{
  ℕ, suc, zero, ◌≤◌, ◌<◌, List, [], ◌∷◌, true, false, ◌≡◌, ◌≢◌, refl, arith, length, keep, any, All,
  Bool-cases, Option-cases, inl, inr,
}
use pigcloud_cli.Cache.{Inode}
use pigcloud_cli.Cache.Inodes.{
  update, has_id, without_cache, invalidate_cache, lru_eviction_candidates,
}
use pigcloud_cli.Cache.Inodes.Candidates.{cached_at, All-candidates, kept-cached}
use pigcloud_cli.Cache.Evict.Passes.{start, advanced, pass-keeps}
use pigcloud_cli.Cache.Evict.{
  Machine, State, out_of_fuel, Pass, Mode, evict_one, pass, rounds, batch_size, is_cached,
  enough_fuel, evict, run_if_needed, force_evict, until_target, until_empty, measured,
}
use pigcloud_cli.Cache.Blobs.{signed_le}

-- The number of rows with content in the cache.
abbrev pub cached_count : List Inode → ℕ
cached_count l = length (keep is_cached l)

invalidate-le :
    (i : ℕ) (l : List Inode) → cached_count (update (has_id i) without_cache l) ≤ cached_count l
unfolding update
invalidate-le i [] = omega arith
invalidate-le i (r ∷ l) = ground (arith, invalidate-le i l)

invalidate-lt :
    (i : ℕ) (l : List Inode)
    → any (cached_at i) l ≡ true
    → cached_count (update (has_id i) without_cache l) < cached_count l
unfolding update
invalidate-lt i [] h = absurd cc
invalidate-lt i (r ∷ l) h = ground (arith, invalidate-le i l, invalidate-lt i l)

every : (l : List Inode) → All {0, 0} (λ r. Unit) l
every [] = tt
every (r ∷ l) = (tt, every l)

-- A mode whose measure leaves the database alone.
abbrev pub MeasuresOnly : Mode → Type 0
MeasuresOnly mode = (st : State) → (mode.measure st).1.db ≡ st.db

module _ (m : Machine) (mode : Mode) (only : MeasuresOnly mode) where
  evict_one-lt :
      (st : State) (r : Inode)
      → any (cached_at r.id) st.db.inodes ≡ true
      → cached_count (mode.measure (evict_one m st r)).1.db.inodes < cached_count st.db.inodes
  evict_one-lt st r h =
      rw (only (evict_one m st r))
        (unfold evict_one invalidate_cache in invalidate-lt r.id st.db.inodes h)

  pass-le :
      (n : ℕ) (p : Pass) (rs : List Inode)
      → cached_count p.state.db.inodes ≤ n
      → cached_count (pass m mode p rs).state.db.inodes ≤ n
  pass-le n p rs h =
      (pass-keeps m mode (λ st. cached_count st.db.inodes ≤ n) (λ st. cached_count st.db.inodes ≤ n)
        (λ r. Unit) (λ st k. k) (λ st r q k. k)
        (λ st r q free k.
          rw (only (evict_one m st r)) (
            unfold evict_one invalidate_cache in omega (arith, k, invalidate-le r.id st.db.inodes)))
        p rs (every rs) h).0

  -- A round that progressed took a row out.
  pass-lt :
      (p : Pass) (rs : List Inode)
      → p.progressed ≡ false
      → All (λ r. any (cached_at r.id) p.state.db.inodes ≡ true) rs
      → (pass m mode p rs).progressed ≡ true
      → cached_count (pass m mode p rs).state.db.inodes < cached_count p.state.db.inodes
  unfolding pass
  pass-lt p [] h a e = absurd cc
  pass-lt p (r ∷ rs) h a e = elim (Bool-cases (mode.enough p.size)) [
    | inl stop ↦ absurd (cc (h, rw (stop, pass) at e))
    | inr more ↦
        let e' = rw (more, pass) at e in
        rw (more, pass)
          (elim (Bool-cases (m.in_use r.id)) [
            | inl used ↦ rw used (pass-lt p rs h a.1 (rw used at e'))
            | inr free ↦
                let e'' = rw free at e' in
                rw free (elim (Bool-cases (m.invalidate_fails r.id)) [
                  | inl fails ↦ absurd (cc (h, rw fails at e''))
                  | inr works ↦ rw works (
                      let less = evict_one-lt p.state r a.0 in
                      let n = cached_count (advanced m mode p.state r).state.db.inodes in
                      omega (arith, less, pass-le n (advanced m mode p.state r) rs (omega arith)))
                ])
          ])
  ]

  any-candidates :
      (st : State)
      → All
          (λ r. any (cached_at r.id) st.db.inodes ≡ true)
          (lru_eviction_candidates st.db batch_size)
  any-candidates st = All-candidates _ st.db batch_size (kept-cached st.db.inodes)

  pub rounds-Ends :
      (fuel : ℕ) (st : State) (size : ℕ)
      → cached_count st.db.inodes < fuel
      → (rounds m mode fuel st size).1 ≢ out_of_fuel
  unfolding rounds
  rounds-Ends zero st size h = absurd (omega arith)
  rounds-Ends (suc fuel) st size h = elim (Bool-cases (mode.enough size)) [
    | inl stop ↦ rw (stop, rounds) (λ e. absurd cc)
    | inr more ↦
        rw (more, rounds)
          (elim (Bool-cases (m.query_fails fuel)) [
            | inl fails ↦ rw fails (λ e. absurd cc)
            | inr works ↦
                let cs = lru_eviction_candidates st.db batch_size in
                let p = pass m mode (start st size) cs in
                rw works (elim (Option-cases p.failed) [
                  | inr (i, broken) ↦ rw broken (λ e. absurd cc)
                  | inl fine ↦ rw fine (elim (Bool-cases p.progressed) [
                    | inl again ↦ rw again (
                        rounds-Ends fuel p.state p.size (
                          omega
                            (arith, h, pass-lt (start st size) cs refl (any-candidates st) again)))
                    | inr still ↦ rw still (λ e. absurd cc)
                  ])
                ])
          ])
  ]

pub measured-db : (target : ℕ) → MeasuresOnly (until_target target)
unfolding measured
measured-db target st = refl

run_if_needed-Ends :
    (m : Machine) (max_size target : ℕ) (st : State)
    → (run_if_needed m max_size target st).1 ≢ out_of_fuel
unfolding run_if_needed evict measured
run_if_needed-Ends m max_size target st = elim (Bool-cases (signed_le (measured st).0 max_size)) [
  | inl small ↦ rw small (λ e. absurd cc)
  | inr large ↦ rw large (
      rounds-Ends m (until_target target) (measured-db target) (enough_fuel st.db) (measured st).1
        (measured st).0 (omega arith))
]

-- Eviction, on demand or by force, ends: it never runs out of its rounds, one more than there
-- are rows with content in the cache, whatever is in use and whatever fails.
pub evict-Ends :
    (m : Machine) (max_size target : ℕ) (st : State)
    → ((run_if_needed m max_size target st).1 ≢ out_of_fuel) × ((force_evict m st).1 ≢ out_of_fuel)
unfolding force_evict
evict-Ends m max_size target st = (
  run_if_needed-Ends m max_size target st,
  rounds-Ends m until_empty (λ s. refl) (enough_fuel st.db) st 0 (omega arith),
)
