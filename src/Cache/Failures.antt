-- ===== src/Cache/Failures.antt =====
-- The statements on the table sync_failures: internal/mount/cache/db.go and retry.go.
pub mod Listed
use Prim.Native.Nat.{Ordering}
use Prim.Native.String.{compare}
use pigcloud_cli.Common.{
  ℕ, String, List, [], ◌∷◌, Bool, true, false, not, ◌&&◌, ◌||◌, Option, none, some, leb, ◌==◌,
  is_empty, if◌then◌else◌, length, keep, any,
}
use pigcloud_cli.Cache.{
  synced, pending, failed, conflict, rejected, Inode, FailureKind, download_failure, upload_failure,
  SyncFailure, Db, status_is, failure_kind_is,
}
use pigcloud_cli.Cache.Inodes.{get_inode_by_path}
use pigcloud_cli.Cache.Queue.{delete_failed_upload_writebacks}

abbrev pub set_failures : Db → List SyncFailure → Db
set_failures d l = record d { failures = l }

abbrev pub is_for : ℕ → FailureKind → SyncFailure → Bool
is_for inode k f = f.inode_id == inode && failure_kind_is f.kind k

unfoldable pub find_failure : ℕ → FailureKind → List SyncFailure → Option SyncFailure
find_failure inode k [] = none
find_failure inode k (f ∷ fs) = if is_for inode k f then some f else find_failure inode k fs

unfoldable pub get_sync_failure : Db → ℕ → FailureKind → Option SyncFailure
get_sync_failure d inode k = find_failure inode k d.failures

-- INSERT … ON CONFLICT(inode_id, kind) DO UPDATE
unfoldable pub put_failure : SyncFailure → List SyncFailure → List SyncFailure
put_failure n [] = n ∷ []
put_failure n (f ∷ fs) = if is_for n.inode_id n.kind f then n ∷ fs else f ∷ put_failure n fs

unfoldable pub record_sync_failure : Db → SyncFailure → Db
record_sync_failure d n = set_failures d (put_failure n d.failures)

unfoldable pub clear_sync_failure : Db → ℕ → FailureKind → Db
clear_sync_failure d inode k = set_failures d (keep (λ f. not (is_for inode k f)) d.failures)

unfoldable pub delete_sync_failures : Db → ℕ → Db
delete_sync_failures d inode = set_failures d (keep (λ f. not (f.inode_id == inode)) d.failures)

abbrev pub stalled_download_attempts : ℕ
stalled_download_attempts = 3

unfoldable pub failed_download_count : Db → ℕ
failed_download_count d = length (
    keep
      (λ f.
        failure_kind_is f.kind download_failure
        && (f.permanent || leb stalled_download_attempts f.attempts))
      d.failures)

abbrev is_there {ℓ} : {A : Type ℓ} → Option A → Bool
is_there none = false
is_there (some a) = true

-- hasFailureLatch
unfoldable pub has_failure_latch : Db → Inode → Bool
has_failure_latch d i =
    if status_is i.status failed
    then true
    else is_there (get_sync_failure d i.id upload_failure)
      || is_there (get_sync_failure d i.id download_failure)

before : String → String → Bool
before s t = elim (compare s t) [ Ordering.lt ↦ true | _ ↦ false ]

insert_by_path : Inode → List Inode → List Inode
unfolding before
insert_by_path r [] = r ∷ []
insert_by_path r (q ∷ qs) =
    if before q.remote_path r.remote_path then q ∷ insert_by_path r qs else r ∷ q ∷ qs

-- ORDER BY remote_path ASC
sort_by_path : List Inode → List Inode
unfolding insert_by_path
sort_by_path [] = []
sort_by_path (r ∷ rs) = insert_by_path r (sort_by_path rs)

unfoldable pub inodes_with_failures : Db → List Inode
unfolding sort_by_path
inodes_with_failures d =
    sort_by_path
      (keep (λ r. status_is r.status failed || any (λ f. f.inode_id == r.id) d.failures) d.inodes)

-- clearEach, with the inodes that it cleared
unfoldable pub clear_each : Db → List Inode → Db × List Inode
clear_each d [] = (d, [])
clear_each d (i ∷ is) = elim (status_is i.status conflict || status_is i.status rejected) [
  | true ↦ clear_each d is
  | false ↦
      let (d', cleared) =
        clear_each (delete_failed_upload_writebacks (delete_sync_failures d i.id) i.id) is in
      (d', i ∷ cleared)
]

clear_one : Db → Option Inode → Db × List Inode
clear_one d none = (d, [])
clear_one d (some i) = if not (has_failure_latch d i) then (d, []) else clear_each d (i ∷ [])

-- ClearFailedTransfers
unfoldable pub clear_failed_transfers : Db → String → Db × List Inode
unfolding clear_one
clear_failed_transfers d path =
    if is_empty path
    then clear_each d (inodes_with_failures d)
    else clear_one d (get_inode_by_path d path)

-- ListIssues
unfoldable pub list_issues : Db → List Inode
unfolding sort_by_path
list_issues d =
    sort_by_path
      (keep (λ r. not (status_is r.status synced || status_is r.status pending)) d.inodes)
