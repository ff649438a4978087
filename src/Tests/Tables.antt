-- ===== src/Tests/Tables.antt =====
-- The tables of the cache database with a few rows.
use pigcloud_cli.Common.{ℕ, String, [], ◌∷◌, true, false, ◌≡◌, any, All}
use pigcloud_cli.Cache.{Inode, synced, upload, Extra, Db}
use pigcloud_cli.Cache.Queue.{new_entry, is_claimed, chosen, dequeue_writeback}
use pigcloud_cli.Cache.Queue.Once.{dequeue_writeback-once}

abbrev pub row : ℕ → String → String → ℕ → Inode
row i path hash access = record {
  id = i;
  remote_path = path;
  display_name = path;
  is_dir = false;
  size = 10;
  mtime = 1;
  cached = true;
  dirty = false;
  pinned = false;
  last_access = access;
  content_hash = hash;
  local_hash = "";
  local_mtime = 0;
  download_baseline_hash = "";
  sealed_key = "";
  enc_meta = "";
  etag = "v1";
  local_remote_etag = "";
  parent_id = 0;
  status = synced;
  reason = "";
}

abbrev pub no_extra : Extra
no_extra = record { idempotency_key = ""; target = "" }

abbrev pub db : Db
db = record {
  inodes = row 1 "/a" "h1" 5 ∷ row 2 "/b" "h2" 3 ∷ [];
  queue = new_entry 1 1 upload "/a" no_extra 10 ∷ new_entry 2 2 upload "/b" no_extra 4 ∷ [];
  failures = [];
  next_inode = 3;
  next_entry = 3;
  writeback_disabled = false;
}

abbrev edited : Inode
edited = record (row 1 "/a" "h9" 9) { dirty = true }

abbrev queued : Db
queued = record db {
  queue =
      new_entry 2 2 upload "/b" no_extra 4
      ∷ new_entry 3 1 upload "/a" (record { idempotency_key = "key"; target = "" }) 20
      ∷ [];
  next_entry = 4;
}

dequeue_writeback-once_example :
    let (d', first) = dequeue_writeback db 1 0 50 in
    All (λ e. is_claimed e ≡ true) first
    × (any (chosen first) (dequeue_writeback d' 8 0 50).1 ≡ false)
dequeue_writeback-once_example = dequeue_writeback-once db 1 0 50 8 0 50
