-- ===== src/Tests/Folder.antt =====
-- The watcher on a folder with a few files.
use pigcloud_cli.Common.{[], true, false, ◌≡◌, refl, inr, some}
use pigcloud_cli.Cache.Inodes.{get_inode_by_path, find}
use pigcloud_cli.Sync.Kept.{Keeps}
use pigcloud_cli.Sync.Names.{to_remote_path}
use pigcloud_cli.Sync.Watch.{
  Setting, State, Local, Event, found, nil, cons, sync_file, handle_remove, handle_event,
}
use pigcloud_cli.Sync.Watch.Synced.{Recorded, sync_file-Recorded}
use pigcloud_cli.Sync.Watch.Removed.{Deleting, Forgotten, is_remote, handle_remove_lem}
use pigcloud_cli.Sync.Watch.Events.{handle_event-Keeps}
use pigcloud_cli.Tests.Tables.{row, db}
use pigcloud_cli.Tests.Sweeps.{machine, store}

-- An evictor is set, and the store is larger than it may be.
abbrev setting : Setting
setting = record {
  base = "";
  types = record { type_map = λ ext. some "text"; lower = λ c. c };
  wording = λ r. "refused";
  machine = machine;
  limits = some (20, 18);
}

abbrev state : State
state = record { cache = record { db = db; store = some store; evicted = [] }; timers = [] }

abbrev new_file : Local
new_file = record {
  rel = "c.txt";
  name = "c.txt";
  safe = true;
  still_safe = true;
  is_dir = false;
  info = some (record { size = 12; mtime = 7 });
  ingest = some ("h3", 80);
  fresh = "key";
}

abbrev new_dir : Local
new_dir = record new_file { rel = "dir"; name = "dir"; is_dir = true }

sync_file-Recorded_example : Recorded (sync_file setting state new_file 50).cache "c.txt" "h3"
unfolding to_remote_path
sync_file-Recorded_example =
    sync_file-Recorded setting state new_file 50 (record { size = 12; mtime = 7 }) store "h3" 80
      refl refl refl refl refl refl (inr ((λ v. refl), ((λ v. refl), tt)))

handle_remove_lem_example :
    let d' = (handle_remove setting state (record new_file { rel = "/b" }) 50).cache.db in
    (is_remote (row 2 "/b" "h2" 3) ≡ true → Deleting d' "/b" (row 2 "/b" "h2" 3))
    × (is_remote (row 2 "/b" "h2" 3) ≡ false → Forgotten d' "/b" (row 2 "/b" "h2" 3))
unfolding to_remote_path
handle_remove_lem_example =
    handle_remove_lem setting state (record new_file { rel = "/b" }) 50 (row 2 "/b" "h2" 3) refl
      (unfold get_inode_by_path find in refl)

abbrev event : Event
event = record { created = true; written = false; removed = false; renamed = false }

handle_event-Keeps_example :
    Keeps db
      (handle_event setting 50 event false
        (found new_dir (cons (found new_file nil) nil))
        state).cache.db
handle_event-Keeps_example =
    handle_event-Keeps setting 50 event false (found new_dir (cons (found new_file nil) nil)) state
      refl
