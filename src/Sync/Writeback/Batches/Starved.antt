-- ===== src/Sync/Writeback/Batches/Starved.antt =====
-- What a batch of entries that are all held back does: internal/mount/syncer/writeback.go.
use pigcloud_cli.Common.{
  ℕ, suc, ◌+◌, ◌-◌, length, ◌/◌, List, [], ◌∷◌, ◌++◌, Bool, true, false, ◌≡◌, refl, ◌∙◌, ap, subst,
  inl, inr, arith, ◌==◌, if◌then◌else◌, if_both, map, keep, any, All, Bool-cases, append_assoc,
  append-nil,
}
use pigcloud_cli.Retry.{second}
use pigcloud_cli.Cache.{Entry, waiting, Db}
use pigcloud_cli.Cache.Inodes.{get_inode}
use pigcloud_cli.Cache.Queue.{
  set_queue, update, is_waiting, chosen, claim, selected, horizon, dequeue_writeback,
}
use pigcloud_cli.Cache.Queue.Once.{All-map}
use pigcloud_cli.Sync.Writeback.{held_by_conflict}
use pigcloud_cli.Sync.Writeback.Attempts.{OneRow, chosen-waiting, selected-waiting}
use pigcloud_cli.Sync.Writeback.Batches.Claimed.{names}
use pigcloud_cli.Sync.Writeback.Batches.{
  World, requeue_all, run_entries, finished, process_batch, process_batch_size, debounce_delay,
}
use pigcloud_cli.Sync.Writeback.Batches.Returned.{
  row_after, map-map, update-map, requeue_all-queue, row_after-claimed, row_after-other,
}

module _ (sel : List Entry) where
  abbrev pub taken : List Entry → List Entry
  taken q = keep (chosen sel) (update (chosen sel) claim q)

  taken-nil : taken [] ≡ []
  unfolding update
  taken-nil = refl

  taken-cons :
      (g : Entry) (q : List Entry)
      → taken (g ∷ q) ≡ (if chosen sel g then claim g ∷ taken q else taken q)
  unfolding update
  taken-cons g q = elim (Bool-cases (chosen sel g)) [
    | inl hit ↦ rw hit (rw hit refl)
    | inr miss ↦ rw miss (rw miss refl)
  ]

  -- What holds of the claimed form of each chosen row holds of all that is taken.
  All-taken :
      (P : Entry → Type 0) (q : List Entry)
      → All (λ g. chosen sel g ≡ true → P (claim g)) q
      → All P (taken q)
  All-taken P [] h = rw taken-nil tt
  All-taken P (g ∷ q) h = elim (Bool-cases (chosen sel g)) [
    | inl hit ↦ rw (taken-cons g q) (rw hit (h.0 hit, All-taken P q h.1))
    | inr miss ↦ rw (taken-cons g q) (rw miss (All-taken P q h.1))
  ]

  chosen-id : (g f : Entry) → (g.id == f.id) ≡ true → chosen sel g ≡ chosen sel f
  chosen-id g f h = let e : g.id ≡ f.id = ground (arith, h) in ap (λ i. any (λ s. s.id == i) sel) e

  there-taken :
      (f : Entry) (q : List Entry)
      → chosen sel f ≡ true
      → any (names f.id) q ≡ true
      → any (names f.id) (taken q) ≡ true
  there-taken f [] c h = absurd cc
  there-taken f (g ∷ q) c h = elim (Bool-cases (chosen sel g)) [
    | inl hit ↦ rw (taken-cons g q) (rw hit (ground (arith, there-taken f q c, h)))
    | inr miss ↦
        let other : (g.id == f.id) ≡ false = ground (arith, chosen-id g f, c, miss) in
        rw (taken-cons g q) (rw miss (there-taken f q c (rw other at h)))
  ]

  absent-taken :
      (f : Entry) (q : List Entry) → chosen sel f ≡ false → any (names f.id) (taken q) ≡ false
  absent-taken f [] c = rw taken-nil refl
  absent-taken f (g ∷ q) c = elim (Bool-cases (chosen sel g)) [
    | inl hit ↦
        let other : (g.id == f.id) ≡ false = ground (arith, chosen-id g f, c, hit) in
        rw (taken-cons g q) (rw hit (rw other (absent-taken f q c)))
    | inr miss ↦ rw (taken-cons g q) (rw miss (absent-taken f q c))
  ]

  -- A row goes through its claim and the requeue unchanged.
  row_restored :
      (q : List Entry) (f : Entry)
      → All (λ g. (g.id == f.id) ≡ true → g ≡ f) q
      → any (names f.id) q ≡ true
      → (chosen sel f ≡ true → f.status ≡ waiting)
      → row_after (taken q) (if chosen sel f then claim f else f) ≡ f
  row_restored q f one there waits = elim (Bool-cases (chosen sel f)) [
    | inr miss ↦ rw miss (row_after-other f (taken q) (absent-taken f q miss))
    | inl hit ↦ rw hit (
        row_after-claimed f (taken q) (waits hit)
          (All-taken _ q (
            All-map
              (λ g same c k. (
                ap (λ (e : Entry). e.last_error) (same k),
                ap (λ (e : Entry). e.attempts) (same k),
              ))
              q one))
          (there-taken f q hit there))
  ]

map-fixed : (g : Entry → Entry) (q : List Entry) → All (λ f. g f ≡ f) q → map g q ≡ q
map-fixed g [] h = refl
map-fixed g (f ∷ q) h = rw (h.0, map-fixed g q h.1) refl

All-self : (q : List Entry) → All (λ f. any (names f.id) q ≡ true) q
All-self [] = tt
All-self (f ∷ q) = (ground arith, All-map (λ g there. ground (arith, there)) q (All-self q))

-- A run over entries that are all held back leaves the database, and holds them all.
pub run_entries-held :
    (w : World) (k : ℕ) (d : Db) (held : List Entry) (n : ℕ) (es : List Entry)
    → ((i : ℕ) → w.expired i ≡ false)
    → All (λ e. held_by_conflict d e ≡ true) es
    → run_entries w k d held n es
      ≡ record { db = d; step = k + length es; held = held ++ es; flushed = n; ended = false }
unfolding run_entries
run_entries-held w k d held n [] goes_on h =
    let same_step : k + 0 ≡ k = omega arith in rw (append-nil held, same_step) refl
run_entries-held w k d held n (e ∷ es) goes_on h =
    let later : suc k + length es ≡ k + suc (length es) = omega arith in
    rw (goes_on k, run_entries, h.0)
      (run_entries-held w (suc k) d (held ++ e ∷ []) n es goes_on h.1
        ∙ rw (append_assoc held (e ∷ []) es, later) refl)

waiting_status : (f : Entry) → is_waiting f ≡ true → f.status ≡ waiting
waiting_status f h = ground arith

-- What holds of all that was selected holds of a row that it chooses.
chosen-holds :
    (p : Entry → Bool) (f : Entry) (sel : List Entry)
    → All (λ s. p s ≡ true) sel
    → All (λ s. (is_waiting s ≡ true) × ((s.id == f.id) ≡ true → s ≡ f)) sel
    → chosen sel f ≡ true
    → p f ≡ true
chosen-holds p f [] h one c = absurd cc
chosen-holds p f (s ∷ sel) h one c = elim (Bool-cases (s.id == f.id)) [
  | inl hit ↦ subst (λ g. p g ≡ true) (one.0.1 hit) h.0
  | inr miss ↦ chosen-holds p f sel h.1 one.1 (rw miss at c)
]

module _ (d : Db) (before : ℕ) where
  abbrev pub batch : List Entry
  batch = selected process_batch_size before d.queue

  claimed_held :
      All (λ e. held_by_conflict d e ≡ true) batch
      → (q : List Entry) → All (λ f. All (λ g. (g.id == f.id) ≡ true → g ≡ f) d.queue) q
      → All (λ f. chosen batch f ≡ true → held_by_conflict d (claim f) ≡ true) q
  unfolding held_by_conflict
  claimed_held h q one =
      All-map
        (λ f inner c.
          chosen-holds (held_by_conflict d) f batch h
            (selected-waiting process_batch_size before f d.queue inner) c)
        q one

  rows_restored :
      (q : List Entry)
      → All (λ f. All (λ g. (g.id == f.id) ≡ true → g ≡ f) d.queue) q
      → All (λ f. any (names f.id) d.queue ≡ true) q
      → All (λ f. row_after (taken batch d.queue) (if chosen batch f then claim f else f) ≡ f) q
  rows_restored [] one there = tt
  rows_restored (f ∷ q) one there = (
    row_restored batch d.queue f one.0 there.0 (λ c.
        waiting_status f
          (chosen-waiting f batch (selected-waiting process_batch_size before f d.queue one.0) c)),
    rows_restored q one.1 there.1,
  )

  -- What a claim up to `before` takes is held, and goes back as it was.
  pub claimed-held :
      OneRow d.queue
      → All (λ e. held_by_conflict d e ≡ true) batch
      → All
          (λ e. held_by_conflict (set_queue d (update (chosen batch) claim d.queue)) e ≡ true)
          (keep (chosen batch) (update (chosen batch) claim d.queue))
  unfolding held_by_conflict get_inode
  claimed-held one held =
      let d' = set_queue d (update (chosen batch) claim d.queue) in
      All-taken batch (λ e. held_by_conflict d' e ≡ true) d.queue (claimed_held held d.queue one)

  pub claimed-restored :
      OneRow d.queue
      → let q = update (chosen batch) claim d.queue in
        (requeue_all (set_queue d q) (keep (chosen batch) q)).queue ≡ d.queue
  claimed-restored one =
      let d' = set_queue d (update (chosen batch) claim d.queue) in
      let es = taken batch d.queue in
      requeue_all-queue d' es
      ∙ ap (map (row_after es)) (update-map (chosen batch) claim d.queue)
      ∙ map-map (row_after es) (λ f. if chosen batch f then claim f else f) d.queue
      ∙ map-fixed _ d.queue (rows_restored d.queue one (All-self d.queue))

-- Where all the entries that are due first, as many as one batch takes, are uploads of inodes in
-- conflict, a batch changes nothing in the queue: whatever else is due waits behind them. This is
-- while the context has not ended, and where rows of one id are one row.
pub process_batch-starves :
    (w : World) (k : ℕ) (d : Db)
    → ((i : ℕ) → w.expired i ≡ false)
    → OneRow d.queue
    → All
        (λ e. held_by_conflict d e ≡ true)
        (selected process_batch_size
          (horizon ((w.clock k - debounce_delay) / second) (w.clock k / second))
          d.queue)
    → (process_batch w k d).queue ≡ d.queue
unfolding process_batch dequeue_writeback
process_batch-starves w k d goes_on one held =
    let before = horizon ((w.clock k - debounce_delay) / second) (w.clock k / second) in
    let sel = batch d before in
    let d' = set_queue d (update (chosen sel) claim d.queue) in
    let es = taken sel d.queue in
    if_both (λ (t : Db). t.queue ≡ d.queue) (w.claim_fails k) d _ refl
      (ap (λ r. (finished r).queue)
          (run_entries-held w k d' [] 0 es goes_on (claimed-held d before one held))
        ∙ claimed-restored d before one)
