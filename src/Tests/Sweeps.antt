-- ===== src/Tests/Sweeps.antt =====
-- Eviction and the sweep of a small store.
use pigcloud_cli.Common.{
  ◌⊎◌, any, true, [], ◌∷◌, false, ◌&&◌, ◌||◌, ◌≡◌, ◌≢◌, refl, some, inl, is_empty, ◌==◌, same,
}
use pigcloud_cli.Cache.Inodes.{
  lru_eviction_candidates, count_cached_by_hash, invalidate_cache, update, get_inode, cached_hash,
  find,
}
use pigcloud_cli.Cache.Blobs.{signed_le, bytes, remove, Store, has}
use pigcloud_cli.Cache.Evict.{
  Machine, batch_size, measured, cache_bytes, evict, rounds, pass, evict_one, release_blob, State,
  done, out_of_fuel, run_if_needed, force_evict, gc_orphans,
}
use pigcloud_cli.Cache.Evict.Ends.{evict-Ends}
use pigcloud_cli.Cache.Evict.Spared.{evict-Spared}
use pigcloud_cli.Cache.Evict.Backed.{Backed, run_if_needed-Backed}
use pigcloud_cli.Cache.Evict.Reached.{is_free, run_if_needed-Reached}
use pigcloud_cli.Cache.Evict.Swept.{has-gc_orphans}
use pigcloud_cli.Tests.Tables.{row, db}

abbrev pub machine : Machine
machine = record {
  in_use = λ i. i == 2;
  count_fails = λ i. false;
  invalidate_fails = λ i. false;
  query_fails = λ n. false;
  stuck = λ h. same h "h7";
}

abbrev pub store : Store
store = record { blobs = ("h1", 10) ∷ ("h2", 10) ∷ ("h7", 5) ∷ ("h8", 5) ∷ []; counter = 30 }

abbrev state : State
state = record { db = db; store = some store; evicted = [] }

evict-Ends_example :
    ((run_if_needed machine 20 18 state).1 ≢ out_of_fuel)
    × ((force_evict machine state).1 ≢ out_of_fuel)
evict-Ends_example = evict-Ends machine 20 18 state

evict-Spared_example :
    (get_inode (run_if_needed machine 20 18 state).0.db 2 ≡ some (row 2 "/b" "h2" 3))
    × (get_inode (force_evict machine state).0.db 2 ≡ some (row 2 "/b" "h2" 3))
evict-Spared_example =
    evict-Spared machine 20 18 state (row 2 "/b" "h2" 3) (unfold find in (refl, (refl, tt)))
      (unfold get_inode find in refl) (inl refl)

run_ends : (run_if_needed machine 20 18 state).1 ≡ done
unfolding run_if_needed measured cache_bytes bytes evict rounds pass lru_eviction_candidates
    evict_one release_blob count_cached_by_hash remove has invalidate_cache update
run_ends = refl

run_if_needed-Backed_example :
    let st' = (run_if_needed machine 20 18 state).0 in Backed st'.db.inodes st'.store
run_if_needed-Backed_example =
    run_if_needed-Backed machine 20 18 state (unfold has in ((λ c n. refl), ((λ c n. refl), tt)))
      (rw run_ends (λ i e. absurd cc))

has-gc_orphans_example :
    has (gc_orphans machine db store).0 "h8"
    ≡ (has store "h8" && (cached_hash db "h8" || (is_empty "h8" || same "h8" "h7")))
has-gc_orphans_example = has-gc_orphans machine db store "h8"

run_if_needed-Reached_example :
    let st' = (run_if_needed machine 20 18 state).0 in
    (signed_le (measured st').0 20 ≡ true)
    ⊎ (signed_le (measured st').0 18 ≡ true)
    ⊎ (any (is_free machine) (lru_eviction_candidates st'.db batch_size) ≡ false)
run_if_needed-Reached_example = run_if_needed-Reached machine 20 18 state run_ends
