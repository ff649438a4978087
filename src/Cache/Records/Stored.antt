-- ===== src/Cache/Records/Stored.antt =====
-- The content store from the outside: what was put is what is got and read, under every name.
-- internal/mount/cache/store.go.
use pigcloud_cli.Common.{ℕ, ◌+◌, ◌<◌, String, true, ◌≡◌, Option, some, take, drop}
use pigcloud_cli.Pins.Codec.{Bytes}
use pigcloud_cli.Cache.Chunks.{Chunks, read}
use pigcloud_cli.Cache.Chunks.Reads.{Faithful, read_at-content}
use pigcloud_cli.Cache.Records.{Aead, overhead, got, read_chunk_at}
use pigcloud_cli.Cache.Records.Vault.{get, Disk, Contents, put, put_file, read_blob}
use pigcloud_cli.Cache.Records.Sealed.{Opens, AddsTag, GivesNonces}
use pigcloud_cli.Cache.Records.Ingest.{
  all_done, IsSound, Keeps, NoCollisions, Outcome, put_file-outcome, put-outcome, put-Keeps,
  get-Keeps,
}

module _ (a : Aead) (size_of : ℕ) (sha : Bytes → String) (nonces : ℕ → Option Bytes)
    (opens : Opens a) (tags : AddsTag a) (gives : GivesNonces nonces) (positive : 0 < size_of)
    (small : size_of + overhead < 4294967296) (distinct : NoCollisions sha) (s : Contents)
    (sound : IsSound a size_of sha s) where
  Reads-Keeps :
      (s' : Contents) (hash : String) (content : Bytes) (off size : ℕ) (c : Chunks)
      → Keeps a size_of sha s' hash content
      → Faithful size_of content hash c
      → (read_blob a size_of s' hash off size c).0 ≡ read (take size (drop off content))
  unfolding read_blob
  Reads-Keeps s' hash content off size c (file, there, is_named, is_sealed) faithful =
      rw (there, read_blob)
        (read_at-content size_of content (read_chunk_at a size_of hash file) hash off size c
          positive is_sealed.1 faithful).0

  -- Every content that is put while the disk does what is asked of it gets the hash of the content
  -- as its name, under which Get gives the content and ReadAt, whatever the chunk cache holds of
  -- it, the bytes from any offset on: where the cipher opens what it sealed, every nonce can be
  -- had, no two contents have one hash and the store's files are sealed contents under their
  -- hashes. The size of a chunk is any that a record's length can tell, and an offset and a size
  -- are numbers without a bound, whose sum does not wrap.
  pub put-restored :
      (disk : Disk) (content : Bytes) (off size : ℕ) (c : Chunks)
      → all_done disk ≡ true
      → Faithful size_of content (sha content) c
      → let (s', name) = put a size_of sha nonces disk s content in
        (name ≡ some (sha content))
        × (get a s' (sha content) ≡ got content)
        × ((read_blob a size_of s' (sha content) off size c).0
            ≡ read (take size (drop off content)))
  put-restored disk content off size c all faithful =
      let (is_named, kept) =
        put-Keeps a size_of sha nonces opens tags gives positive small disk s content distinct sound
          all in
      let s' = (put a size_of sha nonces disk s content).0 in
      (
        is_named,
        get-Keeps a size_of sha nonces opens tags gives positive small s' (sha content) content
            kept,
        Reads-Keeps s' (sha content) content off size c kept faithful,
      )

  -- Whatever the disk does, and whatever a file becomes between being hashed and being sealed: where
  -- Put or PutFile succeeds it gives the hash of the content, or of what the file held when it was
  -- hashed, the store answers with just that under this name and with what it did before under
  -- every other, and its files stay sealed contents under their hashes; where it fails the store is
  -- as before. This is under the same conditions on the cipher, the nonces, the hash and the store.
  pub puts-Outcome :
      (disk : Disk) (before later : Bytes)
      → Outcome a size_of sha s before (put a size_of sha nonces disk s before)
        × Outcome a size_of sha s before (put_file a size_of sha nonces disk s before later)
  puts-Outcome disk before later = (
    put-outcome a size_of sha nonces opens tags gives positive small disk s before distinct sound,
    put_file-outcome a size_of sha nonces opens tags gives positive small disk s before later
        distinct sound,
  )
