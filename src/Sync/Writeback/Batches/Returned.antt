-- ===== src/Sync/Writeback/Batches/Returned.antt =====
-- A row through its claim and its return to the queue: internal/mount/syncer/writeback.go.
use pigcloud_cli.Common.{
  List, [], ◌∷◌, Bool, true, false, ◌≡◌, refl, ◌∙◌, ap, inl, inr, arith, ◌==◌, if◌then◌else◌, map,
  any, All, Bool-cases,
}
use pigcloud_cli.Cache.{Entry, waiting, Db}
use pigcloud_cli.Cache.Queue.{update, entry_id, claim, update_writeback}
use pigcloud_cli.Sync.Writeback.{requeue}
use pigcloud_cli.Sync.Writeback.Batches.Claimed.{names}
use pigcloud_cli.Sync.Writeback.Batches.{requeue_all}

-- One row through the requeues of a list.
abbrev returned : Entry → Entry → Entry
returned e f =
    if f.id == e.id
    then record f { status = waiting; last_error = e.last_error; attempts = e.attempts }
    else f

pub row_after : List Entry → Entry → Entry
row_after [] f = f
row_after (e ∷ l) f = row_after l (returned e f)

map_same : (q : List Entry) → q ≡ map (λ f. f) q
map_same [] = refl
map_same (f ∷ q) = ap (λ t. f ∷ t) (map_same q)

pub map-map : (g h : Entry → Entry) (q : List Entry) → map g (map h q) ≡ map (λ f. g (h f)) q
map-map g h [] = refl
map-map g h (f ∷ q) = ap (λ t. g (h f) ∷ t) (map-map g h q)

pub update-map :
    (p : Entry → Bool) (g : Entry → Entry) (q : List Entry)
    → update p g q ≡ map (λ f. if p f then g f else f) q
unfolding update
update-map p g [] = refl
update-map p g (f ∷ q) = ap (λ t. (if p f then g f else f) ∷ t) (update-map p g q)

pub requeue_all-queue :
    (d : Db) (l : List Entry) → (requeue_all d l).queue ≡ map (row_after l) d.queue
unfolding requeue_all requeue update_writeback row_after
requeue_all-queue d [] = map_same d.queue
requeue_all-queue d (e ∷ l) =
    requeue_all-queue (requeue d e) l
    ∙ ap (map (row_after l)) (update-map (entry_id e.id) _ d.queue)
    ∙ map-map (row_after l) (returned e) d.queue

module _ (f : Entry) where
  -- The entries of one id with `f` have its error and its attempts.
  abbrev Agree : List Entry → Type 0
  Agree l =
      All (λ e. (e.id == f.id) ≡ true → (e.last_error ≡ f.last_error) × (e.attempts ≡ f.attempts)) l

  returned_same :
      (e : Entry)
      → f.status ≡ waiting
      → ((e.id == f.id) ≡ true → (e.last_error ≡ f.last_error) × (e.attempts ≡ f.attempts))
      → returned e f ≡ f
  returned_same e waits agree = elim (Bool-cases (f.id == e.id)) [
    | inr miss ↦ rw miss refl
    | inl hit ↦
        let (error, attempts) = agree (ground arith) in rw hit (rw (error, attempts, ← waits) refl)
  ]

  row_after-same : (l : List Entry) → f.status ≡ waiting → Agree l → row_after l f ≡ f
  unfolding row_after
  row_after-same [] waits agree = refl
  row_after-same (e ∷ l) waits agree =
      ap (row_after l) (returned_same e waits agree.0) ∙ row_after-same l waits agree.1

  pub row_after-claimed :
      (l : List Entry)
      → f.status ≡ waiting
      → Agree l
      → any (names f.id) l ≡ true
      → row_after l (claim f) ≡ f
  unfolding row_after
  row_after-claimed [] waits agree there = absurd cc
  row_after-claimed (e ∷ l) waits agree there = elim (Bool-cases (f.id == e.id)) [
    | inr miss ↦
        let later : any (names f.id) l ≡ true = ground (arith, there) in
        rw miss (row_after-claimed l waits agree.1 later)
    | inl hit ↦
        let here : returned e (claim f) ≡ f =
          let (error, attempts) = agree.0 (ground arith) in
          rw hit (rw (error, attempts, ← waits) refl) in
        ap (row_after l) here ∙ row_after-same l waits agree.1
  ]

  pub row_after-other : (l : List Entry) → any (names f.id) l ≡ false → row_after l f ≡ f
  unfolding row_after
  row_after-other [] absent = refl
  row_after-other (e ∷ l) absent =
      let miss : (f.id == e.id) ≡ false = ground (arith, absent) in
      let later : any (names f.id) l ≡ false = ground (arith, absent) in
      rw miss (row_after-other l later)
