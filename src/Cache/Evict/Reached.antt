-- ===== src/Cache/Evict/Reached.antt =====
-- How far the loops of internal/mount/cache/eviction.go go.
use pigcloud_cli.Common.{
  ℕ, suc, zero, List, [], ◌∷◌, Bool, true, false, not, ◌≡◌, ◌⊎◌, inl, inr, refl, sym, Option, none,
  some, any, Bool-cases, Option-cases,
}
use pigcloud_cli.Cache.{Inode, Db}
use pigcloud_cli.Cache.Inodes.{lru_eviction_candidates}
use pigcloud_cli.Cache.Blobs.{Store, signed_le, is_negative, bytes, walk_bytes}
use pigcloud_cli.Cache.Evict.{
  Machine, State, done, Pass, Mode, cache_bytes, evict_one, pass, rounds, batch_size, evict,
  run_if_needed, until_target, measured, enough_fuel,
}
use pigcloud_cli.Cache.Evict.Passes.{start, advanced}

abbrev pub is_free : Machine → Inode → Bool
is_free m r = not (m.in_use r.id)

-- Measuring again gives the same number.
abbrev Steady : Mode → Type 0
Steady mode = (st : State) → (mode.measure (mode.measure st).1).0 ≡ (mode.measure st).0

module _ (m : Machine) (mode : Mode) where
  pass-size :
      Steady mode
      → (p : Pass) (rs : List Inode) → p.size ≡ (mode.measure p.state).0
      → (pass m mode p rs).failed ≡ none
      → (pass m mode p rs).size ≡ (mode.measure (pass m mode p rs).state).0
  unfolding pass
  pass-size steady p [] h e = h
  pass-size steady p (r ∷ rs) h e = elim (Bool-cases (mode.enough p.size)) [
    | inl stop ↦ rw (stop, pass) h
    | inr more ↦
        let e' = rw (more, pass) at e in
        rw (more, pass)
          (elim (Bool-cases (m.in_use r.id)) [
            | inl used ↦ rw used (pass-size steady p rs h (rw used at e'))
            | inr free ↦
                let e'' = rw free at e' in
                rw free (elim (Bool-cases (m.invalidate_fails r.id)) [
                  | inl fails ↦ absurd (cc (rw fails at e''))
                  | inr works ↦ rw works (
                      pass-size steady (advanced m mode p.state r) rs
                        (sym (steady (evict_one m p.state r))) (rw works at e''))
                ])
          ])
  ]

  advanced-progressed :
      (p : Pass) (rs : List Inode) → p.progressed ≡ true → (pass m mode p rs).progressed ≡ true
  unfolding pass
  advanced-progressed p [] h = h
  advanced-progressed p (r ∷ rs) h = elim (Bool-cases (mode.enough p.size)) [
    | inl stop ↦ rw (stop, pass) h
    | inr more ↦
        rw (more, pass)
          (elim (Bool-cases (m.in_use r.id)) [
            | inl used ↦ rw used (advanced-progressed p rs h)
            | inr free ↦ rw free (elim (Bool-cases (m.invalidate_fails r.id)) [
              | inl fails ↦ rw fails h
              | inr works ↦ rw works (advanced-progressed (advanced m mode p.state r) rs refl)
            ])
          ])
  ]

  -- A round without progress found all its candidates in use and changed nothing.
  pass-still :
      (p : Pass) (rs : List Inode)
      → mode.enough p.size ≡ false
      → (pass m mode p rs).failed ≡ none
      → (pass m mode p rs).progressed ≡ false
      → (any (is_free m) rs ≡ false) × ((pass m mode p rs).state ≡ p.state)
  unfolding pass
  pass-still p [] more e still = (refl, refl)
  pass-still p (r ∷ rs) more e still =
      let e' = rw (more, pass) at e in
      let still' = rw (more, pass) at still in
      rw (more, pass)
        (elim (Bool-cases (m.in_use r.id)) [
          | inl used ↦ rw used (pass-still p rs more (rw used at e') (rw used at still'))
          | inr free ↦
              let e'' = rw free at e' in
              let still'' = rw free at still' in
              elim (Bool-cases (m.invalidate_fails r.id)) [
                | inl fails ↦ absurd (cc (rw fails at e''))
                | inr works ↦ absurd (
                    cc (
                      rw works at still'',
                      advanced-progressed (advanced m mode p.state r) rs refl,
                    ))
              ]
        ])

  pub rounds-Reached :
      Steady mode
      → (fuel : ℕ) (st : State) (size : ℕ) → size ≡ (mode.measure st).0
      → (rounds m mode fuel st size).1 ≡ done
      → let st' = (rounds m mode fuel st size).0 in
        (mode.enough (mode.measure st').0 ≡ true)
        ⊎ (any (is_free m) (lru_eviction_candidates st'.db batch_size) ≡ false)
  unfolding rounds
  rounds-Reached steady zero st size h e = absurd cc
  rounds-Reached steady (suc fuel) st size h e = elim (Bool-cases (mode.enough size)) [
    | inl stop ↦ rw (stop, rounds) (inl (rw h at stop))
    | inr more ↦
        let e' = rw (more, rounds) at e in
        rw (more, rounds)
          (elim (Bool-cases (m.query_fails fuel)) [
            | inl fails ↦ absurd (cc (rw fails at e'))
            | inr works ↦
                let cs = lru_eviction_candidates st.db batch_size in
                let p = pass m mode (start st size) cs in
                let e'' = rw works at e' in
                rw works (elim (Option-cases p.failed) [
                  | inr (i, broken) ↦ absurd (cc (rw broken at e''))
                  | inl fine ↦
                      let e3 = rw fine at e'' in
                      rw fine (elim (Bool-cases p.progressed) [
                        | inl again ↦ rw again (
                            rounds-Reached steady fuel p.state p.size
                              (pass-size steady (start st size) cs h fine) (rw again at e3))
                        | inr still ↦
                            let (in_use, same) = pass-still (start st size) cs more fine still in
                            rw (still, same) (inr in_use)
                      ])
                ])
          ])
  ]

bytes-bytes : (s : Store) → (bytes (bytes s).1).0 ≡ (bytes s).0
unfolding bytes walk_bytes
bytes-bytes s = elim (Bool-cases (is_negative s.counter)) [
  | inl below ↦ rw below (elim (Bool-cases (is_negative (walk_bytes s))) [
    | inl long ↦ rw long refl
    | inr short ↦ rw short refl
  ])
  | inr above ↦ rw (above, above) refl
]

cache_bytes-cache_bytes :
    (d : Db) (s : Option Store) → (cache_bytes d (cache_bytes d s).1).0 ≡ (cache_bytes d s).0
unfolding cache_bytes
cache_bytes-cache_bytes d none = refl
cache_bytes-cache_bytes d (some s) = bytes-bytes s

measured-Steady : (target : ℕ) → Steady (until_target target)
unfolding measured
measured-Steady target st = cache_bytes-cache_bytes st.db st.store

-- An eviction on demand that ends without an error left a cache of the permitted size, or of the
-- target size, or one in which the next hundred inodes to evict are all in use.
pub run_if_needed-Reached :
    (m : Machine) (max_size target : ℕ) (st : State)
    → (run_if_needed m max_size target st).1 ≡ done
    → let st' = (run_if_needed m max_size target st).0 in
      (signed_le (measured st').0 max_size ≡ true)
      ⊎ (signed_le (measured st').0 target ≡ true)
      ⊎ (any (is_free m) (lru_eviction_candidates st'.db batch_size) ≡ false)
unfolding run_if_needed evict
run_if_needed-Reached m max_size target st e =
    let (n, st1) = measured st in
    elim (Bool-cases (signed_le n max_size)) [
      | inl small ↦ rw small (inl (rw (measured-Steady target st) small))
      | inr large ↦ rw large (
          inr (
            rounds-Reached m (until_target target) (measured-Steady target) (enough_fuel st1.db) st1
              n (sym (measured-Steady target st)) (rw large at e)))
    ]
