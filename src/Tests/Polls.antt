-- ===== src/Tests/Polls.antt =====
-- The poller on a directory with an edited file.
use pigcloud_cli.Common.{[], ◌∷◌, true, false, ◌≡◌, refl, inr, some, lookup}
use pigcloud_cli.Cache.{pending, Inode}
use pigcloud_cli.Cache.Inodes.{get_inode, find}
use pigcloud_cli.Sync.Poll.{Node, ListEntry, State, Names, poll_existing, poll_dir}
use pigcloud_cli.Sync.Poll.Twice.{poll_existing-twice}
use pigcloud_cli.Sync.Poll.Pruned.{Holds, poll_dir-Holds}
use pigcloud_cli.Tests.Tables.{db, row}
use pigcloud_cli.Tests.Sweeps.{machine, store}

abbrev edited : Node
edited = record {
  id = 1;
  name = "a";
  remote_path = "/a";
  is_dir = false;
  size = 10;
  mtime = 1;
  etag = "v1";
  cached = true;
  dirty = true;
  content_hash = "h1";
  status = pending;
  reason = "";
}

abbrev changed : ListEntry
changed = record {
  sealed_name = "sealed";
  is_dir = false;
  size = some 20;
  modified = some 9;
  etag = "v2";
}

abbrev names : Names
names = record { unseal = λ s. some "b"; platform = λ s. true }

abbrev state : State
state = record { children = ("a", edited) ∷ []; db = db; store = some store; deleted = [] }

poll_existing-twice_example :
    let (n', d', s') = poll_existing machine edited changed db (some store) in
    poll_existing machine n' changed d' s' ≡ (n', d', s')
poll_existing-twice_example = poll_existing-twice machine edited changed db (some store)

-- The file's node is not marked, but its row is; the directory has another file beside it.
abbrev marked : Node
marked = record edited { dirty = false }

abbrev other : Node
other = record edited { id = 2; name = "c"; remote_path = "/c"; dirty = false }

abbrev marked_row : Inode
marked_row = record (row 1 "/a" "h1" 5) { dirty = true }

abbrev marked_state : State
marked_state = record {
  children = ("a", marked) ∷ ("c", other) ∷ [];
  db = record db { inodes = marked_row ∷ row 2 "/c" "h2" 3 ∷ [] };
  store = some store;
  deleted = [];
}

-- The listing has neither name, so that both files are gone from the server.
poll_dir-Holds_example :
    Holds "a" marked
      (poll_dir machine names (record { id = 0; remote_path = "" }) 50 (changed ∷ []) marked_state)
poll_dir-Holds_example =
    poll_dir-Holds machine names (record { id = 0; remote_path = "" }) 50 (changed ∷ [])
      marked_state "a" marked (unfold lookup in (refl, (refl, tt)))
      ((λ h. absurd cc), ((λ h. refl), tt)) (unfold lookup in refl)
      (inr (marked_row, unfold get_inode find in refl, refl, refl))
