-- ===== src/Sync/Download/Due.antt =====
-- When a failed download is tried again: internal/mount/syncer/downloader.go.
use pigcloud_cli.Common.{
  if_true, if_false, ℕ, ◌+◌, List, [], ◌∷◌, Bool, true, false, ◌&&◌, ◌||◌, ◌≡◌, refl, sym, ◌∙◌, ap,
  some, arith, leb, ◌==◌, Bool-cases, inl, inr,
}
use pigcloud_cli.Retry.{Failure, transfer_backoff}
use pigcloud_cli.Cache.{failed, SyncFailure, download_failure, Db}
use pigcloud_cli.Cache.Inodes.{set_sync_status}
use pigcloud_cli.Cache.Failures.{
  is_for, find_failure, get_sync_failure, put_failure, record_sync_failure,
}
use pigcloud_cli.Sync.Writeback.{due_at}
use pigcloud_cli.Sync.Download.Visiting.{
  record_download_failure, download_due, tried_before, is_due,
}

find-put :
    (f : SyncFailure) (l : List SyncFailure)
    → is_for f.inode_id f.kind f ≡ true
    → find_failure f.inode_id f.kind (put_failure f l) ≡ some f
unfolding find_failure put_failure
find-put f [] own = rw own refl
find-put f (g ∷ l) own = elim (Bool-cases (is_for f.inode_id f.kind g)) [
  | inl hit ↦ rw (hit, own) refl
  | inr miss ↦ rw (miss, miss) (find-put f l own)
]

-- A recorded failure alone says when the next download is due.
due_after :
    (d : Db) (f : SyncFailure) (later : ℕ)
    → is_for f.inode_id f.kind f ≡ true
    → f.kind ≡ download_failure
    → (f.inode_id == 0) ≡ false
    → download_due (record_sync_failure d f) f.inode_id later ≡ is_due (some f) later
unfolding download_due record_sync_failure get_sync_failure
due_after d f later own kind named =
    if_false (f.inode_id == 0) true _ named
    ∙ ap (λ k. is_due (find_failure f.inode_id k (put_failure f d.failures)) later) (sym kind)
    ∙ ap (λ o. is_due o later) (find-put f d.failures own)

-- A download that failed for good is never due again, and one that failed otherwise is due from the
-- end of the wait on that goes with the count of its failures, and not before; this is for an inode
-- with a row and a failure other than a cancellation.
pub download_due-failure :
    (d : Db) (id : ℕ) (e : Failure) (now later : ℕ)
    → (id == 0) ≡ false
    → e.canceled ≡ false
    → let d' = record_download_failure d id e now in
      let attempts = tried_before (get_sync_failure d id download_failure) + 1 in
      (e.is_permanent ≡ true → download_due d' id later ≡ false)
      × (e.is_permanent ≡ false
          → download_due d' id later ≡ leb (due_at now (transfer_backoff attempts)) later)
unfolding record_download_failure
download_due-failure d id e now later named running =
    let attempts = tried_before (get_sync_failure d id download_failure) + 1 in
    let goes_on : (id == 0 || e.canceled) ≡ false = ground (arith, named, running) in
    let latch : Bool → ℕ → SyncFailure = λ perm next. record {
      inode_id = id;
      kind = download_failure;
      permanent = perm;
      attempts = attempts;
      next_retry_at = next;
      last_error = e.message;
    } in
    let own : (id == id && true) ≡ true = ground arith in
    let at_last = set_sync_status d id failed e.message in
    let next = due_at now (transfer_backoff attempts) in
    let seen = λ (t : Db). download_due t id later in
    (
      (λ perm.
          ap seen (
            if_false (id == 0 || e.canceled) d _ goes_on
            ∙ if_true e.is_permanent (record_sync_failure at_last (latch true 0)) _ perm)
          ∙ due_after at_last (latch true 0) later own refl named),
      (λ passing.
          ap seen (
            if_false (id == 0 || e.canceled) d _ goes_on
            ∙ if_false e.is_permanent _ (record_sync_failure d (latch false next)) passing)
          ∙ due_after d (latch false next) later own refl named),
    )
