-- ===== src/Cache/Records/Vault.antt =====
-- The content store on its sealed records: what is put and what is read. Put, PutFile, Get, WriteTo and
-- ReadAt of internal/mount/cache/store.go.
use mathlib.Core.Option
use pigcloud_cli.Common.{
  ℕ, suc, ◌+◌, ◌%◌, String, List, [], Bool, true, false, not, Option, none, some, if◌then◌else◌,
  length, lookup, insert, same,
}
use pigcloud_cli.Pins.Codec.{Bytes}
use pigcloud_cli.Cache.Blobs.{words}
use pigcloud_cli.Cache.Chunks.{Chunks, Read, read_at}
use pigcloud_cli.Cache.Records.{
  Aead, Stream, sealed, seal_stream, Got, get_from, Ended, write_from, read_chunk_at, seal_failed,
  out_of_fuel, unreadable, broken,
}

-- The store: its files, and the byte counter as a 64-bit pattern.
pub record Contents : Type 0 where
  pub files : List (String × Bytes)
  pub counter : ℕ

abbrev pub get_file : Aead → String → Option Bytes → Got
get_file a hash none = unreadable
get_file a hash (some file) = get_from a hash (suc (length file)) [] file

-- Get
unfoldable pub get : Aead → Contents → String → Got
get a s hash = get_file a hash (lookup hash s.files)

abbrev pub write_file : Aead → String → ℕ → Option Bytes → Bytes × Ended
write_file a hash room none = ([], broken)
write_file a hash room (some file) = write_from a hash room (suc (length file)) [] file

-- WriteTo, to a writer that takes `room` bytes and fails at the next
unfoldable pub write_to : Aead → Contents → String → ℕ → Bytes × Ended
write_to a s hash room = write_file a hash room (lookup hash s.files)

-- ReadAt of a blob, with its file opened where the chunk cache has not all
unfoldable pub read_blob : Aead → ℕ → Contents → String → ℕ → ℕ → Chunks → Read × Chunks
read_blob a size_of s hash off size c =
    read_at size_of (Option.map (read_chunk_at a size_of hash) (lookup hash s.files)) hash off size
      c

-- What the file system does with the temporary file: the shard directory and the file are made and
-- every write, the sync, the close and the rename succeed, or not; whether its size can be asked for.
pub record Disk : Type 0 where
  pub created : Bool
  pub written : Bool
  pub renamed : Bool
  pub sized : Bool

abbrev pub commit : Disk → Contents → String → Bytes → Contents × Bool
commit disk s hash out =
    if not disk.written then (s, false) else if not disk.renamed then (s, false) else (
      record {
        files = insert hash out s.files;
        counter = (s.counter + (if disk.sized then length out else 0)) % words;
      },
      true,
    )

abbrev pub commit_stream : Disk → Contents → String → Stream → Contents × Bool
commit_stream disk s hash (sealed out) = commit disk s hash out
commit_stream disk s hash seal_failed = (s, false)
commit_stream disk s hash out_of_fuel = (s, false)

-- putSealed, with its success; `out` is what seal writes
unfoldable pub put_sealed : Disk → Contents → String → Stream → Contents × Bool
put_sealed disk s hash out = elim (lookup hash s.files) [
  | some _ ↦ (s, true)
  | none ↦ if disk.created then commit_stream disk s hash out else (s, false)
]

-- Put: the store, and the hash where it succeeds
abbrev pub named : String → Contents × Bool → Contents × Option String
named hash (s, done) = (s, if done then some hash else none)

unfoldable pub put :
    Aead
    → ℕ
    → (Bytes → String)
    → (ℕ → Option Bytes)
    → Disk
    → Contents
    → Bytes
    → Contents × Option String
put a size_of sha nonces disk s content =
    named (sha content)
      (put_sealed disk s (sha content) (seal_stream a size_of (sha content) nonces content))

-- PutFile: `before` is what the file holds when it is hashed, `later` when it is sealed
abbrev pub verified : Bool → Stream → Stream
verified true out = out
verified false out = seal_failed

unfoldable pub put_file :
    Aead
    → ℕ
    → (Bytes → String)
    → (ℕ → Option Bytes)
    → Disk
    → Contents
    → Bytes
    → Bytes
    → Contents × Option String
put_file a size_of sha nonces disk s before later = named (sha before) (
    put_sealed disk s (sha before)
      (verified (same (sha later) (sha before)) (seal_stream a size_of (sha before) nonces later)))
