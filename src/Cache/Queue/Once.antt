-- ===== src/Cache/Queue/Once.antt =====
-- What DequeueWriteback of internal/mount/cache/db.go hands out, and what it does not.
use pigcloud_cli.Common.{
  ℕ, ◌<◌, String, List, [], ◌∷◌, Bool, true, false, ◌≡◌, refl, arith, ◌==◌, ==_iff, keep, any, All,
  All-take, Bool-cases, inl, inr,
}
use pigcloud_cli.Cache.{waiting, Entry, Db}
use pigcloud_cli.Cache.Queue.{
  update, entry_id, due, is_waiting, is_claimed, insert_by_time, sort_by_time, selected, chosen,
  claim, horizon, dequeue_writeback, defer_writeback,
}

pub All-map :
    {P Q : Entry → Type 0} → ((e : Entry) → P e → Q e) → (l : List Entry) → All P l → All Q l
All-map f [] h = tt
All-map f (e ∷ l) h = (f e h.0, All-map f l h.1)

All-any :
    (P : Entry → Type 0) (p : Entry → Bool) (l : List Entry)
    → ((e : Entry) → P e → p e ≡ false)
    → All P l
    → any p l ≡ false
All-any P p [] f h = refl
All-any P p (e ∷ l) f h = rw (f e h.0) (All-any P p l f h.1)

pub keep-holds : (p : Entry → Bool) (l : List Entry) → All (λ e. p e ≡ true) (keep p l)
keep-holds p [] = tt
keep-holds p (e ∷ l) = ground (arith, keep-holds p l)

-- A property that all pending entries have is one of the entries that the SELECT gives.
module _ (P : Entry → Type 0) where
  All-insert : (e : Entry) (l : List Entry) → P e → All P l → All P (insert_by_time e l)
  unfolding insert_by_time
  All-insert e [] h hs = (h, tt)
  All-insert e (f ∷ l) h hs = ground (arith, All-insert e l h hs.1)

  All-sort : (l : List Entry) → All P l → All P (sort_by_time l)
  unfolding sort_by_time
  All-sort [] h = tt
  All-sort (e ∷ l) h = All-insert e (sort_by_time l) h.0 (All-sort l h.1)

  pub All-selected :
      (limit before : ℕ) (q : List Entry)
      → All P (keep (due before) q)
      → All P (selected limit before q)
  unfolding selected
  All-selected limit before q h = All-take P limit _ (All-sort _ h)

chosen-by_id :
    (sel : List Entry) (e f : Entry) → (e.id == f.id) ≡ true → chosen sel e ≡ chosen sel f
chosen-by_id sel e f h = rw ((==_iff e.id f.id).0 h) refl

-- Where a selection has no entry of an id that passes a test, nothing it chooses passes it.
module _ (p : Entry → Bool) (by_id : (e f : Entry) → (e.id == f.id) ≡ true → p e ≡ p f) where
  not-chosen :
      (sel : List Entry) (e : Entry)
      → All (λ s. p s ≡ false) sel
      → chosen sel e ≡ true
      → p e ≡ false
  not-chosen [] e h c = absurd (cc)
  not-chosen (s ∷ sel) e h c = ground (arith, by_id s e, not-chosen sel e h.1)

update-claimed :
    (p : Entry → Bool) (by_id : (e f : Entry) → (e.id == f.id) ≡ true → p e ≡ p f) (l : List Entry)
    → All (λ e. is_waiting e ≡ true → p e ≡ false) (update p claim l)
unfolding update
update-claimed p by_id [] = tt
update-claimed p by_id (e ∷ l) = elim (Bool-cases (p e)) [
  | inl hit ↦ rw hit ((λ w. absurd cc), update-claimed p by_id l)
  | inr miss ↦ rw miss ((λ w. miss), update-claimed p by_id l)
]

update-status :
    (p : Entry → Bool) (by_id : (e f : Entry) → (e.id == f.id) ≡ true → p e ≡ p f) (l : List Entry)
    → All (λ e. is_claimed e ≡ true) (keep p (update p claim l))
unfolding update
update-status p by_id [] = tt
update-status p by_id (e ∷ l) = elim (Bool-cases (p e)) [
  | inl hit ↦
      rw (hit, by_id (claim e) e ((==_iff e.id e.id).1 refl), hit) (refl, update-status p by_id l)
  | inr miss ↦ rw (miss, miss) (update-status p by_id l)
]

All-due :
    (p : Entry → Bool) (before : ℕ) (q : List Entry)
    → All (λ e. is_waiting e ≡ true → p e ≡ false) q
    → All (λ e. due before e ≡ true → p e ≡ false) q
All-due p before q = All-map (λ e f h. f (ground arith)) q

keep-All :
    (p r : Entry → Bool) (q : List Entry)
    → All (λ e. r e ≡ true → p e ≡ false) q
    → All (λ e. p e ≡ false) (keep r q)
keep-All p r [] h = tt
keep-All p r (e ∷ q) h = elim (Bool-cases (r e)) [
  | inl hit ↦ rw hit (h.0 hit, keep-All p r q h.1)
  | inr miss ↦ rw miss (keep-All p r q h.1)
]

-- What no due entry of the table is, no entry that a dequeue returns is.
dequeue-None :
    (p : Entry → Bool) (by_id : (e f : Entry) → (e.id == f.id) ≡ true → p e ≡ p f) (d : Db)
    (limit before now : ℕ)
    → All (λ e. due (horizon before now) e ≡ true → p e ≡ false) d.queue
    → any p (dequeue_writeback d limit before now).1 ≡ false
unfolding dequeue_writeback
dequeue-None p by_id d limit before now h =
    let sel = selected limit (horizon before now) d.queue in
    let none_selected : All (λ e. p e ≡ false) sel =
      All-selected (λ e. p e ≡ false) limit (horizon before now) d.queue
        (keep-All p (due (horizon before now)) d.queue h) in
    All-any (λ e. chosen sel e ≡ true) p (keep (chosen sel) (update (chosen sel) claim d.queue))
      (λ e. not-chosen p by_id sel e none_selected)
      (keep-holds (chosen sel) (update (chosen sel) claim d.queue))

chosen-chosen :
    (sel l : List Entry) (e : Entry) → chosen sel e ≡ false → chosen (keep (chosen sel) l) e ≡ false
chosen-chosen sel l e h =
    All-any (λ s. chosen sel s ≡ true) (λ s. s.id == e.id) (keep (chosen sel) l)
      (λ s c. elim (Bool-cases (s.id == e.id)) [
        | inl hit ↦ absurd (ground (arith, c, h, chosen-by_id sel s e hit))
        | inr miss ↦ miss
      ])
      (keep-holds (chosen sel) l)

-- No entry is handed out twice: all that a dequeue returns is marked in progress, and a second
-- dequeue on the resulting table, whatever its limit and times, returns no id of the first.
pub dequeue_writeback-once :
    (d : Db) (limit before now limit' before' now' : ℕ)
    → let (d', first) = dequeue_writeback d limit before now in
      All (λ e. is_claimed e ≡ true) first
      × (any (chosen first) (dequeue_writeback d' limit' before' now').1 ≡ false)
dequeue_writeback-once d limit before now limit' before' now' =
    let sel = selected limit (horizon before now) d.queue in
    let q = update (chosen sel) claim d.queue in
    (
      unfold dequeue_writeback in update-status (chosen sel) (chosen-by_id sel) d.queue,
      dequeue-None (chosen (dequeue_writeback d limit before now).1)
          (chosen-by_id (dequeue_writeback d limit before now).1)
          (dequeue_writeback d limit before now).0 limit' before' now'
          (unfold dequeue_writeback in
            All-due (chosen (keep (chosen sel) q)) (horizon before' now') q (
              All-map (λ e f w. chosen-chosen sel q e (f w)) q
                (update-claimed (chosen sel) (chosen-by_id sel) d.queue))),
    )

deferred-rests :
    (i : ℕ) (why : String) (attempts not_before before : ℕ)
    → before < not_before
    → (q : List Entry)
    → All
        (λ e. due before e ≡ true → entry_id i e ≡ false)
        (update
          (entry_id i)
          (λ e. record e {
            status = waiting;
            last_error = why;
            attempts = attempts;
            enqueued_at = not_before;
          })
          q)
unfolding update
deferred-rests i why attempts not_before before h [] = tt
deferred-rests i why attempts not_before before h (e ∷ q) = elim (Bool-cases (entry_id i e)) [
  | inl hit ↦
      rw hit ((λ w. absurd (ground arith)), deferred-rests i why attempts not_before before h q)
  | inr miss ↦ rw miss ((λ w. miss), deferred-rests i why attempts not_before before h q)
]

-- A deferred entry rests: after a deferral of an id to a time, no dequeue up to an earlier time
-- returns an entry of that id.
pub dequeue-defer_writeback :
    (d : Db) (i : ℕ) (why : String) (attempts not_before limit before now : ℕ)
    → horizon before now < not_before
    → any
        (entry_id i)
        (dequeue_writeback (defer_writeback d i why attempts not_before) limit before now).1
      ≡ false
dequeue-defer_writeback d i why attempts not_before limit before now h =
    dequeue-None (entry_id i) (λ e f same_id. rw ((==_iff e.id f.id).0 same_id) refl)
      (defer_writeback d i why attempts not_before) limit before now
      (unfold defer_writeback in
        deferred-rests i why attempts not_before (horizon before now) h d.queue)
