-- ===== src/Cache/Queue.antt =====
-- The statements on the table writeback_queue: internal/mount/cache/db.go.
pub mod Claims
pub mod Once
use pigcloud_cli.Common.{
  ℕ, suc, ◌+◌, ◌-◌, ◌≤◌, String, List, [], ◌∷◌, ◌++◌, Bool, true, false, not, ◌&&◌, ◌||◌, Option,
  none, some, ltb, leb, ◌==◌, same, is_empty, if◌then◌else◌, length, keep, any, take, min,
}
use pigcloud_cli.Cache.{
  Action, upload, rename, EntryStatus, waiting, in_progress, gave_up, Extra, Entry, Db, action_is,
  entry_status_is,
}

abbrev pub set_queue : Db → List Entry → Db
set_queue d q = record d { queue = q }

abbrev pub is_waiting : Entry → Bool
is_waiting e = entry_status_is e.status waiting

abbrev pub is_claimed : Entry → Bool
is_claimed e = entry_status_is e.status in_progress

abbrev pub is_gave_up : Entry → Bool
is_gave_up e = entry_status_is e.status gave_up

-- UPDATE writeback_queue SET … WHERE
unfoldable pub update : (Entry → Bool) → (Entry → Entry) → List Entry → List Entry
update p f [] = []
update p f (e ∷ es) = (if p e then f e else e) ∷ update p f es

abbrev pub entry_id : ℕ → Entry → Bool
entry_id i e = e.id == i

-- The pending entries of one inode and one action.
abbrev pub duplicates : ℕ → Action → Entry → Bool
duplicates inode a e = e.inode_id == inode && (action_is e.action a && is_waiting e)

-- An upload without an idempotency key is given the fresh one.
abbrev pub with_key : Action → String → Extra → Extra
with_key a fresh x =
    if action_is a upload && is_empty x.idempotency_key
    then record { idempotency_key = fresh; target = "" }
    else x

abbrev pub new_entry : ℕ → ℕ → Action → String → Extra → ℕ → Entry
new_entry i inode a path x now = record {
  id = i;
  inode_id = inode;
  action = a;
  remote_path = path;
  extra = x;
  enqueued_at = now;
  attempts = 0;
  last_error = "";
  status = waiting;
}

-- EnqueueWriteback; `none` is ErrReadOnlyMount. `fresh` is the value of NewUploadIdempotencyKey.
unfoldable pub enqueue_writeback : Db → ℕ → Action → String → Extra → ℕ → String → Option Db
enqueue_writeback d inode a path x now fresh =
    if d.writeback_disabled
    then none
    else let kept =
        if not (action_is a rename)
        then keep (λ e. not (duplicates inode a e)) d.queue
        else d.queue in
      some (record d {
        queue = kept ++ new_entry d.next_entry inode a path (with_key a fresh x) now ∷ [];
        next_entry = suc d.next_entry;
      })

abbrev pub due : ℕ → Entry → Bool
due before e = is_waiting e && leb e.enqueued_at before

insert_by_time : Entry → List Entry → List Entry
insert_by_time e [] = e ∷ []
insert_by_time e (f ∷ fs) =
    if ltb f.enqueued_at e.enqueued_at then f ∷ insert_by_time e fs else e ∷ f ∷ fs

-- ORDER BY enqueued_at ASC, id ASC, of a table in id order
sort_by_time : List Entry → List Entry
unfolding insert_by_time
sort_by_time [] = []
sort_by_time (e ∷ es) = insert_by_time e (sort_by_time es)

-- the ids that the inner SELECT gives
unfoldable pub selected : ℕ → ℕ → List Entry → List Entry
unfolding sort_by_time
selected limit before q = take limit (sort_by_time (keep (due before) q))

abbrev pub chosen : List Entry → Entry → Bool
chosen sel e = any (λ s. s.id == e.id) sel

abbrev pub claim : Entry → Entry
claim e = record e { status = in_progress }

-- claimBefore <= 0 stands for the next second
abbrev pub horizon : ℕ → ℕ → ℕ
horizon claim_before now = if claim_before == 0 then now + 1 else claim_before

-- DequeueWriteback: the claimed entries in table order, and the table with them claimed; a Scan of a
-- returned row that fails, after which the rows stay claimed, is not modelled
unfoldable pub dequeue_writeback : Db → ℕ → ℕ → ℕ → Db × List Entry
dequeue_writeback d limit claim_before now =
    let sel = selected limit (horizon claim_before now) d.queue in
    let q = update (chosen sel) claim d.queue in (set_queue d q, keep (chosen sel) q)

unfoldable pub has_active_writeback : Db → ℕ → Action → Bool
has_active_writeback d inode a =
    any (λ e. e.inode_id == inode && (action_is e.action a && (is_waiting e || is_claimed e)))
      d.queue

-- RequeueInProgress, with the count of the rows
unfoldable pub requeue_in_progress : Db → Db × ℕ
requeue_in_progress d = (
  set_queue d (update is_claimed (λ e. record e { status = waiting }) d.queue),
  length (keep is_claimed d.queue),
)

unfoldable pub update_writeback : Db → ℕ → EntryStatus → String → ℕ → Db
update_writeback d i s why attempts = set_queue d (
    update (entry_id i) (λ e. record e { status = s; last_error = why; attempts = attempts })
      d.queue)

unfoldable pub defer_writeback : Db → ℕ → String → ℕ → ℕ → Db
defer_writeback d i why attempts not_before = set_queue d (
    update (entry_id i)
      (λ e. record e {
        status = waiting;
        last_error = why;
        attempts = attempts;
        enqueued_at = not_before;
      })
      d.queue)

earliest : Option ℕ → List Entry → Option ℕ
earliest m [] = m
earliest none (e ∷ es) = earliest (some e.enqueued_at) es
earliest (some t) (e ∷ es) = earliest (some (min t e.enqueued_at)) es

abbrev or_zero : Option ℕ → ℕ
or_zero none = 0
or_zero (some t) = t

abbrev pub deferred : ℕ → Entry → Bool
deferred after e = is_waiting e && ltb after e.enqueued_at

-- DeferredWritebackCount: the count, and the time of the earliest
unfoldable pub deferred_writeback_count : Db → ℕ → ℕ × ℕ
unfolding earliest
deferred_writeback_count d after =
    let l = keep (deferred after) d.queue in (length l, or_zero (earliest none l))

unfoldable pub delete_writeback : Db → ℕ → Db
delete_writeback d i = set_queue d (keep (λ e. not (entry_id i e)) d.queue)

unfoldable pub pending_writeback_count : Db → ℕ
pending_writeback_count d = length (keep is_waiting d.queue)

unfoldable pub failed_writeback_count : Db → ℕ
failed_writeback_count d = length (keep is_gave_up d.queue)

unfoldable pub delete_writeback_by_inode : Db → ℕ → Db
delete_writeback_by_inode d inode = set_queue d (keep (λ e. not (e.inode_id == inode)) d.queue)

unfoldable pub delete_failed_upload_writebacks : Db → ℕ → Db
delete_failed_upload_writebacks d inode =
    set_queue d
      (keep (λ e. not (e.inode_id == inode && (action_is e.action upload && is_gave_up e))) d.queue)

-- DeleteFailedWritebacks, with the count of the rows
unfoldable pub delete_failed_writebacks : Db → Db × ℕ
delete_failed_writebacks d =
    (set_queue d (keep (λ e. not (is_gave_up e)) d.queue), length (keep is_gave_up d.queue))
