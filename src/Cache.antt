-- ===== src/Cache.antt =====
-- The mount's cache database, internal/mount/cache: its three tables as lists in id order. Texts
-- that the code only compares are texts; a column that holds JSON is what the code reads from it.
pub mod Inodes
pub mod Queue
pub mod Failures
pub mod Blobs
pub mod Evict
pub mod Chunks
pub mod Records
use pigcloud_cli.Common.{ℕ, String, List, Bool, true, false, same}

-- SyncStatus
pub data Status : Type 0 where
  synced pending rejected failed conflict offline : Status

pub record Inode : Type 0 where
  pub id : ℕ
  pub remote_path : String
  pub display_name : String
  pub is_dir : Bool
  pub size : ℕ
  pub mtime : ℕ
  pub cached : Bool
  pub dirty : Bool
  pub pinned : Bool
  pub last_access : ℕ
  pub content_hash : String
  pub local_hash : String
  pub local_mtime : ℕ
  pub download_baseline_hash : String
  pub sealed_key : String
  pub enc_meta : String
  pub etag : String
  pub local_remote_etag : String
  pub parent_id : ℕ
  pub status : Status
  pub reason : String

-- the kinds of sync_failures
pub data FailureKind : Type 0 where
  download_failure upload_failure : FailureKind

pub record SyncFailure : Type 0 where
  pub inode_id : ℕ
  pub kind : FailureKind
  pub permanent : Bool
  pub attempts : ℕ
  pub next_retry_at : ℕ
  pub last_error : String

pub data Action : Type 0 where
  upload mkdir delete rename : Action
  unknown : String → Action

pub data EntryStatus : Type 0 where
  waiting in_progress gave_up : EntryStatus

-- extra_json: the two members that the code reads, "" where they are missing
pub record Extra : Type 0 where
  pub idempotency_key : String
  pub target : String

pub record Entry : Type 0 where
  pub id : ℕ
  pub inode_id : ℕ
  pub action : Action
  pub remote_path : String
  pub extra : Extra
  pub enqueued_at : ℕ
  pub attempts : ℕ
  pub last_error : String
  pub status : EntryStatus

-- The tables, the next value of each AUTOINCREMENT column, and the read-only flag.
pub record Db : Type 0 where
  pub inodes : List Inode
  pub queue : List Entry
  pub failures : List SyncFailure
  pub next_inode : ℕ
  pub next_entry : ℕ
  pub writeback_disabled : Bool

abbrev pub status_is : Status → Status → Bool
status_is synced synced = true
status_is pending pending = true
status_is rejected rejected = true
status_is failed failed = true
status_is conflict conflict = true
status_is offline offline = true
status_is _ _ = false

abbrev pub action_is : Action → Action → Bool
action_is upload upload = true
action_is mkdir mkdir = true
action_is delete delete = true
action_is rename rename = true
action_is (unknown a) (unknown b) = same a b
action_is _ _ = false

abbrev pub entry_status_is : EntryStatus → EntryStatus → Bool
entry_status_is waiting waiting = true
entry_status_is in_progress in_progress = true
entry_status_is gave_up gave_up = true
entry_status_is _ _ = false

abbrev pub failure_kind_is : FailureKind → FailureKind → Bool
failure_kind_is download_failure download_failure = true
failure_kind_is upload_failure upload_failure = true
failure_kind_is _ _ = false
