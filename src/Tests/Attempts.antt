-- ===== src/Tests/Attempts.antt =====
-- The writeback processor on a small queue.
use pigcloud_cli.Common.{[], ◌∷◌, true, false, refl, none}
use pigcloud_cli.Retry.{Failure}
use pigcloud_cli.Cache.{upload, Entry, Db}
use pigcloud_cli.Cache.Queue.{new_entry, with_key, enqueue_writeback, dequeue_writeback}
use pigcloud_cli.Sync.Writeback.{failure, process_entry}
use pigcloud_cli.Sync.Writeback.Settled.{AllTries}
use pigcloud_cli.Sync.Writeback.Attempts.{
  Reaches, here, then_step, enqueued, dequeued, processed, Reaches-AllTries,
}
use pigcloud_cli.Tests.Tables.{no_extra, db}

abbrev pub lost : Failure
lost = record {
  request = none;
  api_code = none;
  is_permanent = false;
  canceled = false;
  timed_out = true;
  connection_lost = false;
  bad_input = false;
  missing_file = false;
  seal_stale = false;
  message = "timeout";
}

abbrev empty_db : Db
empty_db = record db { queue = [] }

abbrev entry : Entry
entry = new_entry 3 1 upload "/a" (with_key upload "key" no_extra) 20

abbrev one_entry : Db
one_entry = record empty_db { queue = entry ∷ []; next_entry = 4 }

reached :
    Reaches empty_db (process_entry (dequeue_writeback one_entry 10 0 50).0 entry (failure lost) 60)
reached =
    then_step
      (then_step
        (then_step here (
          enqueued {d = empty_db} {d' = one_entry} 1 upload "/a" no_extra 20 "key"
            (unfold enqueue_writeback in refl)))
        (dequeued 10 0 50 (((λ e. refl), tt), tt)))
      (processed entry (failure lost) 60)

Reaches-AllTries_example :
    AllTries (process_entry (dequeue_writeback one_entry 10 0 50).0 entry (failure lost) 60)
Reaches-AllTries_example =
    Reaches-AllTries empty_db
      (process_entry (dequeue_writeback one_entry 10 0 50).0 entry (failure lost) 60) reached tt
