-- ===== src/Sync/Writeback/Batches/Claimed.antt =====
-- No batch leaves an entry claimed: internal/mount/syncer/writeback.go.
use pigcloud_cli.Common.{
  ℕ, suc, ◌+◌, ◌/◌, String, List, [], ◌∷◌, ◌++◌, Bool, true, false, not, ◌||◌, ◌≡◌, refl, sym, ◌∙◌,
  inl, inr, some, arith, ◌==◌, leb, if◌then◌else◌, if_both, keep, any, any-append, All, All-keep,
  All-append, Bool-cases, Option-cases, append_assoc, append-nil,
}
use pigcloud_cli.Retry.{Failure, second}
use pigcloud_cli.Cache.{upload_failure, Action, upload, delete, rename, Extra, Entry, Db, action_is}
use pigcloud_cli.Cache.Inodes.{set_sync_status, mark_dirty, mark_synced}
use pigcloud_cli.Cache.Queue.{
  update, entry_id, is_claimed, chosen, claim, selected, horizon, duplicates, enqueue_writeback,
  dequeue_writeback, update_writeback, defer_writeback, delete_writeback,
}
use pigcloud_cli.Cache.Queue.Claims.{enqueued}
use pigcloud_cli.Cache.Failures.{record_sync_failure, clear_sync_failure}
use pigcloud_cli.Sync.Writeback.{
  max_retries, Uploaded, Outcome, failure, success, give_up, settle_failure, record_uploaded,
  enqueue_again, settle_upload, settle_success, process_entry, held_by_conflict, requeue,
}
use pigcloud_cli.Sync.Writeback.Settled.{record_uploaded-queue}
use pigcloud_cli.Sync.Writeback.Batches.{
  World, outcome_at, requeue_all, Ran, run_entries, succeeded, finished,
}

abbrev pub names : ℕ → Entry → Bool
names i e = e.id == i

-- Only ids that `m` holds of are claimed.
abbrev pub ClaimedBy : (ℕ → Bool) → List Entry → Type 0
ClaimedBy m q = All (λ f. is_claimed f ≡ true → m f.id ≡ true) q

abbrev pub NoneClaimed : Db → Type 0
NoneClaimed d = All (λ f. is_claimed f ≡ false) d.queue

-- The ids of a list.
abbrev pub ids : List Entry → ℕ → Bool
ids l i = any (names i) l

module _ (e : Entry) (m m' : ℕ → Bool)
    (less : (i : ℕ) → m i ≡ true → (e.id == i) ≡ false → m' i ≡ true) where
  update-ClaimedBy :
      (g : Entry → Entry)
      → ((f : Entry) → is_claimed (g f) ≡ false)
      → (q : List Entry) → ClaimedBy m q
      → ClaimedBy m' (update (entry_id e.id) g q)
  unfolding update
  update-ClaimedBy g free [] h = tt
  update-ClaimedBy g free (f ∷ q) h = elim (Bool-cases (f.id == e.id)) [
    | inl hit ↦ rw hit ((λ claimed. absurd (cc (free f))), update-ClaimedBy g free q h.1)
    | inr miss ↦
        rw miss ((λ claimed. less f.id (h.0 claimed) (ground arith)), update-ClaimedBy g free q h.1)
  ]

  keep-ClaimedBy :
      (q : List Entry) → ClaimedBy m q → ClaimedBy m' (keep (λ f. not (entry_id e.id f)) q)
  keep-ClaimedBy [] h = tt
  keep-ClaimedBy (f ∷ q) h = elim (Bool-cases (f.id == e.id)) [
    | inl hit ↦ rw hit (keep-ClaimedBy q h.1)
    | inr miss ↦ rw miss ((λ claimed. less f.id (h.0 claimed) (ground arith)), keep-ClaimedBy q h.1)
  ]

  settle_failure-ClaimedBy :
      (d : Db) (err : Failure) (now : ℕ)
      → ClaimedBy m d.queue
      → ClaimedBy m' (settle_failure d e err now).queue
  unfolding settle_failure give_up set_sync_status update_writeback record_sync_failure
      defer_writeback
  settle_failure-ClaimedBy d err now h =
      elim (Bool-cases (leb max_retries (e.attempts + 1) || err.is_permanent)) [
        | inr left ↦ rw left (update-ClaimedBy _ (λ f. refl) d.queue h)
        | inl over ↦ rw over (elim (Bool-cases (action_is e.action upload)) [
          | inl uploads ↦ rw uploads (update-ClaimedBy _ (λ f. refl) d.queue h)
          | inr other ↦ rw other (update-ClaimedBy _ (λ f. refl) d.queue h)
        ])
      ]

  requeue-ClaimedBy : (d : Db) → ClaimedBy m d.queue → ClaimedBy m' (requeue d e).queue
  unfolding requeue update_writeback
  requeue-ClaimedBy d h = update-ClaimedBy _ (λ f. refl) d.queue h

enqueue_writeback-ClaimedBy :
    (m : ℕ → Bool) (d d' : Db) (inode : ℕ) (a : Action) (path : String) (x : Extra) (now : ℕ)
    (fresh : String)
    → action_is a rename ≡ false
    → enqueue_writeback d inode a path x now fresh ≡ some d'
    → ClaimedBy m d.queue
    → ClaimedBy m d'.queue
enqueue_writeback-ClaimedBy m d d' inode a path x now fresh other e h =
    rw (enqueued d inode a path x now fresh d' other e) (
      All-append (λ f. is_claimed f ≡ true → m f.id ≡ true)
        (keep (λ f. not (duplicates inode a f)) d.queue) _
        (All-keep _ (λ f. not (duplicates inode a f)) d.queue h) ((λ claimed. absurd cc), tt))

not_rename : (b : Bool) → action_is (if b then delete else upload) rename ≡ false
not_rename true = refl
not_rename false = refl

enqueue_again-ClaimedBy :
    (m : ℕ → Bool) (d : Db) (e : Entry) (u : Uploaded) (now : ℕ)
    → ClaimedBy m d.queue
    → ClaimedBy m (enqueue_again d e u now).queue
unfolding enqueue_again
enqueue_again-ClaimedBy m d e u now h =
    let a = if u.missing then delete else upload in
    let x : Extra = record { idempotency_key = ""; target = "" } in
    elim (Option-cases
      (enqueue_writeback (mark_dirty d e.inode_id) e.inode_id a u.path x (now / second) u.fresh)) [
        | inl refused ↦ rw (refused, enqueue_again) (unfold set_sync_status mark_dirty in h)
        | inr (d', made) ↦
            rw (made, enqueue_again)
              (enqueue_writeback-ClaimedBy m (mark_dirty d e.inode_id) d' e.inode_id a u.path x
                (now / second) u.fresh (not_rename u.missing) made (unfold mark_dirty in h))
      ]

settle_success-ClaimedBy :
    (e : Entry) (m m' : ℕ → Bool)
    → ((i : ℕ) → m i ≡ true → (e.id == i) ≡ false → m' i ≡ true)
    → (d : Db) (u : Uploaded) (now : ℕ) → ClaimedBy m d.queue
    → ClaimedBy m' (settle_success d e u now).queue
unfolding settle_success settle_upload delete_writeback mark_synced clear_sync_failure
settle_success-ClaimedBy e m m' less d u now h =
    let kept = keep-ClaimedBy e m m' less d.queue h in
    elim (Bool-cases (action_is e.action upload)) [
      | inr other ↦ rw other kept
      | inl uploads ↦
          let d' =
            record_uploaded (clear_sync_failure (delete_writeback d e.id) e.inode_id upload_failure)
              e u in
          let kept' : ClaimedBy m' d'.queue = rw (record_uploaded-queue _ e u) kept in
          rw uploads (
            if_both (λ (t : Db). ClaimedBy m' t.queue) u.changed (enqueue_again d' e u now)
              (mark_synced d' e.inode_id u.etag) (enqueue_again-ClaimedBy m' d' e u now kept')
              kept')
    ]

process_entry-ClaimedBy :
    (e : Entry) (m m' : ℕ → Bool)
    → ((i : ℕ) → m i ≡ true → (e.id == i) ≡ false → m' i ≡ true)
    → (d : Db) (o : Outcome) (now : ℕ) → ClaimedBy m d.queue
    → ClaimedBy m' (process_entry d e o now).queue
unfolding process_entry
process_entry-ClaimedBy e m m' less d (failure err) now h =
    settle_failure-ClaimedBy e m m' less d err now h
process_entry-ClaimedBy e m m' less d (success u) now h =
    settle_success-ClaimedBy e m m' less d u now h

-- The ids of a list without those of one of its entries.
without :
    (held es : List Entry) (e : Entry) (i : ℕ)
    → ids (held ++ e ∷ es) i ≡ true
    → (e.id == i) ≡ false
    → ids (held ++ es) i ≡ true
without held es e i h miss =
    rw (any-append (names i) held es) (rw (any-append (names i) held (e ∷ es), miss) at h)

requeue_all-ClaimedBy :
    (d : Db) (l rest : List Entry)
    → ClaimedBy (ids (l ++ rest)) d.queue
    → ClaimedBy (ids rest) (requeue_all d l).queue
unfolding requeue_all
requeue_all-ClaimedBy d [] rest h = h
requeue_all-ClaimedBy d (e ∷ l) rest h =
    requeue_all-ClaimedBy (requeue d e) l rest
      (requeue-ClaimedBy e (ids (e ∷ l ++ rest)) (ids (l ++ rest)) (without [] (l ++ rest) e) d h)

pub none_claimed : (q : List Entry) → ClaimedBy (ids []) q → All (λ f. is_claimed f ≡ false) q
none_claimed [] h = tt
none_claimed (f ∷ q) h = (ground arith, none_claimed q h.1)

-- The entries that a run has left, with those held back.
abbrev pub Left : Ran → Type 0
Left r = NoneClaimed (finished r)

ClaimedBy-mono :
    {m m' : ℕ → Bool}
    → ((i : ℕ) → m i ≡ true → m' i ≡ true)
    → (q : List Entry) → ClaimedBy m q
    → ClaimedBy m' q
ClaimedBy-mono more [] h = tt
ClaimedBy-mono more (f ∷ q) h = ((λ claimed. more f.id (h.0 claimed)), ClaimedBy-mono more q h.1)

swapped : (a b : List Entry) (i : ℕ) → ids (a ++ b) i ≡ true → ids (b ++ a) i ≡ true
swapped a b i h = rw (any-append (names i) b a) (ground (arith, sym (any-append (names i) a b) ∙ h))

pub run_entries-Left :
    (w : World) (k : ℕ) (d : Db) (held : List Entry) (n : ℕ) (es : List Entry)
    → ClaimedBy (ids (held ++ es)) d.queue
    → Left (run_entries w k d held n es)
unfolding run_entries
run_entries-Left w k d held n [] h = none_claimed _ (requeue_all-ClaimedBy d held [] h)
run_entries-Left w k d held n (e ∷ es) h = elim (Bool-cases (w.expired k)) [
  | inl over ↦
      rw (over, run_entries)
        (none_claimed _ (
          requeue_all-ClaimedBy (requeue_all d (e ∷ es)) held [] (
            rw (append-nil held) (
              requeue_all-ClaimedBy d (e ∷ es) held
                (ClaimedBy-mono (swapped held (e ∷ es)) d.queue h)))))
  | inr goes_on ↦
      rw (goes_on, run_entries)
        (elim (Bool-cases (held_by_conflict d e)) [
          | inl holds ↦ rw holds (
              run_entries-Left w (suc k) d (held ++ e ∷ []) n es
                (rw (append_assoc held (e ∷ []) es) h))
          | inr free ↦ rw free (
              run_entries-Left w (suc k) (process_entry d e (outcome_at w k e) (w.clock k)) held
                (n + succeeded (outcome_at w k e)) es
                (process_entry-ClaimedBy e (ids (held ++ e ∷ es)) (ids (held ++ es))
                  (without held es e) d (outcome_at w k e) (w.clock k) h))
        ])
]

-- A claimed row is among the entries that the claim gives.
module _ (sel : List Entry) where
  claimed_row :
      (all : ℕ → Bool) (q : List Entry)
      → ((i : ℕ) → ids (keep (chosen sel) (update (chosen sel) claim q)) i ≡ true → all i ≡ true)
      → All (λ f. is_claimed f ≡ false) q
      → ClaimedBy all (update (chosen sel) claim q)
  unfolding update
  claimed_row all [] gives h = tt
  claimed_row all (f ∷ q) gives h = elim (Bool-cases (chosen sel f)) [
    | inl hit ↦
        let gives' = rw hit at gives in
        rw hit (
          (λ claimed. gives' f.id (rw hit (ground arith))),
          claimed_row all q (λ i there. gives' i (rw hit (ground (arith, there)))) h.1,
        )
    | inr miss ↦ rw miss (
      (λ claimed. absurd (cc (h.0, claimed))),
      claimed_row all q (λ i there. (rw miss at gives) i (rw miss there)) h.1,
    )
  ]

pub dequeue-ClaimedBy :
    (d : Db) (limit before now : ℕ)
    → NoneClaimed d
    → let (d', es) = dequeue_writeback d limit before now in ClaimedBy (ids es) d'.queue
unfolding dequeue_writeback
dequeue-ClaimedBy d limit before now h =
    let sel = selected limit (horizon before now) d.queue in
    claimed_row sel (ids (keep (chosen sel) (update (chosen sel) claim d.queue))) d.queue
      (λ i there. there) h
