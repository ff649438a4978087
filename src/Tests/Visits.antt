-- ===== src/Tests/Visits.antt =====
-- The reconciler on a folder with a few files.
use pigcloud_cli.Common.{[], ◌∷◌, true, false, ◌≡◌, refl, ap, some, is_empty, same}
use pigcloud_cli.Cache.{Inode}
use pigcloud_cli.Cache.Inodes.{get_inode_by_path, get_inode, find, local_content_state}
use pigcloud_cli.Sync.Kept.{Keeps}
use pigcloud_cli.Sync.Names.{validate_file, extension, type_of, matches}
use pigcloud_cli.Sync.Reconcile.{
  Setting, State, Info, LocalEntry, heal_entry, queue_new_file, queue_validated,
}
use pigcloud_cli.Sync.Reconcile.Walk.{node, nil, cons, reconcile}
use pigcloud_cli.Sync.Reconcile.Edits.{reconcile-Keeps}
use pigcloud_cli.Sync.Reconcile.Healed.{heal_entry-once}
use pigcloud_cli.Sync.Reconcile.Edited.{Noticed, heal_entry-edited}
use pigcloud_cli.Tests.Tables.{row, db}
use pigcloud_cli.Tests.Sweeps.{machine, store}

abbrev setting : Setting
setting = record {
  types = record { type_map = λ ext. some "text"; lower = λ c. c };
  wording = λ r. "refused";
  machine = machine;
}

abbrev info : Info
info = record { size = 12; mtime = 7 }

abbrev local_file : LocalEntry
local_file = record {
  rel = "c.txt";
  name = "c.txt";
  is_dir = false;
  safe = true;
  info = some info;
  digest = some "h3";
  fresh = "key";
}

abbrev edited_file : LocalEntry
edited_file = record local_file { rel = "b"; name = "b" }

-- `/b` as it was synchronized, with the version of the server.
abbrev synced_row : Inode
synced_row = record (row 2 "/b" "" 3) {
  local_hash = "h2";
  download_baseline_hash = "h2";
  local_remote_etag = "v1";
}

abbrev state : State
state = record {
  db = record db { inodes = row 1 "/a" "h1" 5 ∷ synced_row ∷ []; queue = [] };
  store = some store;
}

new_file_healed : (heal_entry setting state "c.txt" local_file 50).1 ≡ true
unfolding heal_entry get_inode_by_path find queue_new_file queue_validated validate_file extension
    type_of matches
new_file_healed = refl

heal_entry-once_example :
    let st' = (heal_entry setting state "c.txt" local_file 50).0 in
    heal_entry setting st' "c.txt" local_file 99 ≡ (st', false)
heal_entry-once_example = heal_entry-once setting state "c.txt" local_file 50 99 new_file_healed

heal_entry-edited_example : Noticed (heal_entry setting state "/b" edited_file 50).0.db "/b"
heal_entry-edited_example =
    heal_entry-edited setting state "/b" edited_file 50 synced_row info
      (record { current = "h2"; baseline = "h2"; version = "v1" }) "h3" refl refl refl refl
      (unfold get_inode_by_path find in refl) refl
      (unfold local_content_state get_inode find in refl) (λ e. cc (ap is_empty e))
      (λ e. cc (ap (λ s. same s "h2") e))

reconcile-Keeps_example :
    Keeps state.db
      (reconcile setting "" 50 (node local_file (cons (node edited_file nil) nil)) state).0.db
reconcile-Keeps_example =
    reconcile-Keeps setting "" 50 (node local_file (cons (node edited_file nil) nil)) state
