-- ===== src/Tests/Downloads.antt =====
-- The downloader on a file that was synchronized before.
use pigcloud_cli.Common.{◌+◌, ◌*◌, [], ◌∷◌, true, false, ◌≡◌, refl, inl, none, some, leb}
use pigcloud_cli.Retry.{second, transfer_backoff}
use pigcloud_cli.Cache.{Db, Inode, failed, synced, download_failure}
use pigcloud_cli.Cache.Inodes.{get_inode, get_inode_by_path, find, local_content_state}
use pigcloud_cli.Cache.Failures.{get_sync_failure}
use pigcloud_cli.Sync.Kept.{Keeps, Keeps-refl}
use pigcloud_cli.Sync.Writeback.{due_at}
use pigcloud_cli.Sync.Reconcile.{Setting, LocalEntry}
use pigcloud_cli.Sync.Reconcile.Walk.{node, nil}
use pigcloud_cli.Sync.First.{Course, initial_sync}
use pigcloud_cli.Sync.First.Populate.{met, below, nothing_below}
use pigcloud_cli.Sync.First.Spared.{initial_sync-spares}
use pigcloud_cli.Sync.Poll.{Node, ListEntry}
use pigcloud_cli.Sync.Download.{
  State, LocalFile, there, fetched, Attempt, download_file, inode_dirty, local_baseline, stored,
  published_as, commit_download,
}
use pigcloud_cli.Sync.Download.Visiting.{visit, record_download_failure, download_due, tried_before}
use pigcloud_cli.Sync.Download.Guarded.{Unharmed, download_file-Unharmed}
use pigcloud_cli.Sync.Download.Edits.{visit-Keeps}
use pigcloud_cli.Sync.Download.Due.{download_due-failure}
use pigcloud_cli.Tests.Tables.{row, db}
use pigcloud_cli.Tests.Sweeps.{machine, store}
use pigcloud_cli.Tests.Attempts.{lost}

abbrev setting : Setting
setting = record {
  types = record { type_map = λ ext. some "text"; lower = λ c. c };
  wording = λ r. "refused";
  machine = machine;
}

abbrev old_copy : Db
old_copy = record db {
  inodes = record (row 2 "/b" "" 3) { download_baseline_hash = "h2"; cached = false } ∷ [];
}

abbrev remote_file : Node
remote_file = record {
  id = 2;
  name = "b";
  remote_path = "/b";
  is_dir = false;
  size = 12;
  mtime = 1;
  etag = "v2";
  cached = false;
  dirty = false;
  content_hash = "";
  status = synced;
  reason = "";
}

abbrev state : State
state = record { node = remote_file; db = old_copy; store = some store; published = false }

abbrev local_file : LocalFile
local_file = record { file_id = 7; hash = "h2"; mtime = 4; size = 9 }

abbrev attempt : Attempt
attempt = record {
  safe_before = true;
  before = there local_file;
  fetch = fetched "h5" 12;
  meanwhile = λ d. d;
  etag_then = "v2";
  safe_fetched = true;
  dir_made = true;
  staged = true;
  safe_then = true;
  after = there local_file;
  renamed = true;
  etag_later = "v2";
  local_mtime = 5;
  unsafe_path = lost;
  oversize = lost;
  broken = lost;
}

replaced : (download_file machine state attempt 50).0.published ≡ true
unfolding download_file inode_dirty get_inode find local_baseline local_content_state stored
    published_as commit_download
replaced = refl

download_file-Unharmed_example : Unharmed state attempt
download_file-Unharmed_example = download_file-Unharmed machine state attempt 50 refl replaced

visit-Keeps_example : Keeps old_copy (visit setting state attempt 0 (50 * second) none).db
visit-Keeps_example = visit-Keeps setting state attempt 0 (50 * second) none (λ d. Keeps-refl d)

download_due-failure_example :
    let d' = record_download_failure db 2 lost (50 * second) in
    let attempts = tried_before (get_sync_failure db 2 download_failure) + 1 in
    (false ≡ true → download_due d' 2 60 ≡ false)
    × (false ≡ false
        → download_due d' 2 60 ≡ leb (due_at (50 * second) (transfer_backoff attempts)) 60)
download_due-failure_example = download_due-failure db 2 lost (50 * second) 60 refl refl

abbrev folder : LocalEntry
folder = record {
  rel = ".";
  name = "folder";
  is_dir = true;
  safe = true;
  info = none;
  digest = none;
  fresh = "key";
}

-- The row of `/b` is up to date, that of `/gone` is failed and has no file.
abbrev left_over : Db
left_over = record db {
  inodes = row 2 "/b" "h2" 3 ∷ record (row 5 "/gone" "" 3) { status = failed } ∷ [];
}

-- The server lists a newer version of `/b`, whose row has an edit, and a directory that is new.
abbrev listed_file : ListEntry
listed_file = record {
  sealed_name = "b";
  is_dir = false;
  size = some 12;
  modified = none;
  etag = "v2";
}

abbrev course : Course
course = record {
  names = record { unseal = some; platform = λ s. true };
  on_disk = λ p. false;
  root = record { id = 0; remote_path = "/" };
  remote =
      met
        (record {
          ended = false;
          loaded = false;
          nodes = ("b", record remote_file { etag = "v1" }) ∷ [];
          answer = some (
              listed_file
              ∷ record listed_file { sealed_name = "new"; is_dir = true; size = none }
              ∷ []);
        })
        (below "new"
          (met (record { ended = false; loaded = false; nodes = []; answer = none }) nothing_below)
          nothing_below);
  visits = record { file = remote_file; attempt = attempt; parent = 0; copy = none } ∷ [];
  cut = false;
  folder = node folder nil;
}

abbrev with_edit : Db
with_edit = record left_over {
  inodes =
      record (row 2 "/b" "h2" 3) { dirty = true }
      ∷ record (row 5 "/gone" "" 3) { status = failed }
      ∷ [];
}

initial_sync-spares_example :
    (q : Inode) × (get_inode_by_path
        (initial_sync setting "" (50 * second) course with_edit (some store))
        "/b"
      ≡ some q)
    × (true ≡ true → q.dirty ≡ true)
    × (q.id ≡ 2)
initial_sync-spares_example =
    initial_sync-spares setting "" (50 * second) course with_edit (some store) "/b"
      (record (row 2 "/b" "h2" 3) { dirty = true })
      (unfold get_inode_by_path find in (refl, (refl, tt))) ((λ d. Keeps-refl d), tt)
      (unfold get_inode_by_path find in refl) ((λ e. cc), inl ((λ e. cc), (λ e. cc)))
