-- ===== src/Cache/Evict/Passes.antt =====
-- What a step of the loops of internal/mount/cache/eviction.go keeps, the loops keep.
use pigcloud_cli.Common.{
  ℕ, suc, zero, List, [], ◌∷◌, true, false, ◌≡◌, ◌≢◌, refl, none, All, Bool-cases, Option-cases,
  inl, inr,
}
use pigcloud_cli.Cache.{Inode}
use pigcloud_cli.Cache.Inodes.{lru_eviction_candidates}
use pigcloud_cli.Cache.Evict.{
  Machine, State, invalidate_error, Pass, Mode, release_blob, evict_one, pass, rounds, batch_size,
}

-- The state where the release came through and the invalidation did not.
abbrev pub released : Machine → State → Inode → State
released m st r = record st { store = release_blob m st.db st.store r.content_hash r.id }

-- A state fit for the round to begin with.
abbrev pub start : State → ℕ → Pass
start st size = record { state = st; size = size; progressed = false; failed = none }

-- What the loop goes on with after an eviction.
abbrev pub advanced : Machine → Mode → State → Inode → Pass
advanced m mode st r =
    let (n, st') = mode.measure (evict_one m st r) in
    record { state = st'; size = n; progressed = true; failed = none }

-- `I` holds between two candidates that have `Q`, and `J` of whatever state the loops stop in.
module _ (m : Machine) (mode : Mode) (I J : State → Type 0) (Q : Inode → Type 0)
    (weaken : (st : State) → I st → J st)
    (fail : (st : State) (r : Inode) → Q r → I st → J (released m st r))
    (step : (st : State) (r : Inode)
      → Q r
      → m.in_use r.id ≡ false
      → I st
      → I (mode.measure (evict_one m st r)).1) where
  pub pass-keeps :
      (p : Pass) (rs : List Inode)
      → All Q rs
      → I p.state
      → let p' = pass m mode p rs in J p'.state × (p'.failed ≡ none → I p'.state)
  unfolding pass
  pass-keeps p [] q h = (weaken p.state h, (λ e. h))
  pass-keeps p (r ∷ rs) q h = elim (Bool-cases (mode.enough p.size)) [
    | inl stop ↦ rw (stop, pass) (weaken p.state h, (λ e. h))
    | inr more ↦
        rw (more, pass)
          (elim (Bool-cases (m.in_use r.id)) [
            | inl used ↦ rw used (pass-keeps p rs q.1 h)
            | inr free ↦ rw free (elim (Bool-cases (m.invalidate_fails r.id)) [
              | inl fails ↦ rw fails (fail p.state r q.0 h, (λ e. absurd cc))
              | inr works ↦
                  rw works
                    (pass-keeps (advanced m mode p.state r) rs q.1 (step p.state r q.0 free h))
            ])
          ])
  ]

  module _ (fit : (st : State) → I st → All Q (lru_eviction_candidates st.db batch_size)) where
    pub rounds-keeps :
        (fuel : ℕ) (st : State) (size : ℕ)
        → I st
        → let (st', o) = rounds m mode fuel st size in
          J st' × (((i : ℕ) → o ≢ invalidate_error i) → I st')
    unfolding rounds
    rounds-keeps zero st size h = (weaken st h, (λ e. h))
    rounds-keeps (suc fuel) st size h = elim (Bool-cases (mode.enough size)) [
      | inl stop ↦ rw (stop, rounds) (weaken st h, (λ e. h))
      | inr more ↦
          rw (more, rounds)
            (elim (Bool-cases (m.query_fails fuel)) [
              | inl fails ↦ rw fails (weaken st h, (λ e. h))
              | inr works ↦
                  let p = pass m mode (start st size) (lru_eviction_candidates st.db batch_size) in
                  let kept =
                    pass-keeps (start st size) (lru_eviction_candidates st.db batch_size) (fit st h)
                      h in
                  rw works (elim (Option-cases p.failed) [
                    | inr (i, broken) ↦ rw broken (kept.0, (λ e. absurd (e i refl)))
                    | inl fine ↦ rw fine (elim (Bool-cases p.progressed) [
                      | inl again ↦ rw again (rounds-keeps fuel p.state p.size (kept.1 fine))
                      | inr still ↦ rw still (kept.0, (λ e. kept.1 fine))
                    ])
                  ])
            ])
    ]
