-- ===== src/Tests/Batches.antt =====
-- The loops of the writeback processor on a small queue.
use pigcloud_cli.Common.{◌*◌, [], ◌∷◌, false, ◌≡◌, refl, arith, leb}
use pigcloud_cli.Retry.{second}
use pigcloud_cli.Cache.{Db, conflict, upload}
use pigcloud_cli.Cache.Inodes.{get_inode, find}
use pigcloud_cli.Cache.Queue.{new_entry, selected}
use pigcloud_cli.Sync.Writeback.{failure, held_by_conflict}
use pigcloud_cli.Sync.Writeback.Batches.{World, process_batch, flush_all}
use pigcloud_cli.Sync.Writeback.Batches.Claimed.{NoneClaimed}
use pigcloud_cli.Sync.Writeback.Batches.Rounds.{batches-NoneClaimed}
use pigcloud_cli.Sync.Writeback.Batches.Starved.{process_batch-starves}
use pigcloud_cli.Sync.Writeback.Batches.Held.{Stops, flush_all-held}
use pigcloud_cli.Tests.Tables.{row, no_extra, db}
use pigcloud_cli.Tests.Attempts.{lost}

-- Every transfer is lost, and the context ends after three visits.
abbrev world : World
world = record {
  outcome = λ k. failure lost;
  again = λ k. failure lost;
  clock = λ k. 100 * second;
  expired = λ k. leb 3 k;
  claim_fails = λ k. false;
}

batches-NoneClaimed_example :
    NoneClaimed (process_batch world 0 db) × NoneClaimed (flush_all world 4 db).db
batches-NoneClaimed_example = batches-NoneClaimed world 0 4 db (refl, (refl, tt))

-- A batch full of uploads in conflict, before one that is not.
abbrev stuck_db : Db
stuck_db = record db {
  inodes = record (row 1 "/a" "h1" 5) { status = conflict } ∷ row 2 "/b" "h2" 3 ∷ [];
  queue =
      new_entry 1 1 upload "/a" no_extra 1
      ∷ new_entry 2 1 upload "/a" no_extra 1
      ∷ new_entry 3 1 upload "/a" no_extra 1
      ∷ new_entry 4 1 upload "/a" no_extra 1
      ∷ new_entry 5 1 upload "/a" no_extra 1
      ∷ new_entry 6 1 upload "/a" no_extra 1
      ∷ new_entry 7 1 upload "/a" no_extra 1
      ∷ new_entry 8 1 upload "/a" no_extra 1
      ∷ new_entry 9 1 upload "/a" no_extra 1
      ∷ new_entry 10 1 upload "/a" no_extra 1
      ∷ new_entry 11 2 upload "/b" no_extra 2
      ∷ [];
}

process_batch-starves_example :
    (process_batch (record world { expired = λ k. false }) 0 stuck_db).queue ≡ stuck_db.queue
process_batch-starves_example =
    process_batch-starves (record world { expired = λ k. false }) 0 stuck_db (λ i. refl)
      (ground arith)
      (unfold selected held_by_conflict get_inode find in
        (refl, (refl, (refl, (refl, (refl, (refl, (refl, (refl, (refl, (refl, tt)))))))))))

flush_all-held_example :
    Stops stuck_db 0 (flush_all (record world { expired = λ k. false }) 1 stuck_db)
flush_all-held_example =
    flush_all-held (record world { expired = λ k. false }) 1 stuck_db (λ i. refl) (omega arith) refl
      refl (ground arith)
      (unfold selected held_by_conflict get_inode find in
        (refl, (refl, (refl, (refl, (refl, (refl, (refl, (refl, (refl, (refl, tt)))))))))))
