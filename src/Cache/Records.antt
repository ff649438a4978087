-- ===== src/Cache/Records.antt =====
-- The encrypted records of a blob's file, and what writes and reads them: internal/mount/cache/
-- store.go. XChaCha20-Poly1305 under the store's key, the nonces that crypto/rand gives and SHA-256
-- are parameters; a chunk has `size_of` bytes. Offsets and lengths are below 2 ^ 63.
pub mod Sealed
pub mod Restored
pub mod Ingest
pub mod Stored
pub mod Sent
pub mod Vault
use mathlib.Core.Option
use pigcloud_cli.Common.{
  ℕ, zero, suc, ◌+◌, ◌-◌, ◌*◌, ◌/◌, ◌%◌, ◌≡◌, String, List, [], ◌∷◌, ◌++◌, Bool, true, false, not,
  Option, none, some, ltb, ◌==◌, if◌then◌else◌, codes, length, take, drop, lookup, insert, same,
}
use pigcloud_cli.Pins.Codec.{Bytes}
use pigcloud_cli.Cache.Blobs.{words}
use pigcloud_cli.Cache.Chunks.{Answer, plain, past_end, failed, Chunks, Read, read_at}

-- cipher.AEAD under a fixed key: Seal and Open, each of a nonce, a text and the associated data
pub record Aead : Type 0 where
  pub encrypt : Bytes → Bytes → Bytes → Bytes
  pub decrypt : Bytes → Bytes → Bytes → Option Bytes

abbrev pub cache_chunk_size : ℕ
cache_chunk_size = 1048576

abbrev pub nonce_size : ℕ
nonce_size = 24

-- chacha20poly1305.Overhead
abbrev pub overhead : ℕ
overhead = 16

-- fullRecordSize, for chunks of `size_of` bytes
abbrev pub full_record_size : ℕ → ℕ
full_record_size size_of = 4 + nonce_size + size_of + overhead

-- binary.BigEndian.PutUint32 and PutUint64
abbrev pub put_uint32 : ℕ → Bytes
put_uint32 n = n / 16777216 % 256 ∷ n / 65536 % 256 ∷ n / 256 % 256 ∷ n % 256 ∷ []

abbrev pub put_uint64 : ℕ → Bytes
put_uint64 n = put_uint32 (n / 4294967296) ++ put_uint32 n

-- binary.BigEndian.Uint32
abbrev pub get_uint32 : Bytes → ℕ
get_uint32 (a ∷ b ∷ c ∷ d ∷ _) = ((a * 256 + b) * 256 + c) * 256 + d
get_uint32 _ = 0

-- chunkAD
unfoldable pub chunk_ad : ℕ → String → Bytes
chunk_ad offset hash = put_uint64 offset ++ codes hash

-- what a chunk is written as: the length of its ciphertext, the nonce, the ciphertext
abbrev pub framed : Bytes → Bytes → Bytes
framed nonce ciphertext = put_uint32 (length ciphertext) ++ (nonce ++ ciphertext)

unfoldable pub record_of : Aead → String → ℕ → Bytes → Bytes → Bytes
record_of a hash offset nonce p = framed nonce (a.encrypt nonce p (chunk_ad offset hash))

-- The bytes that are sealed, or an error: there is no nonce, or the source changed.
pub data Stream : Type 0 where
  sealed : Bytes → Stream
  seal_failed out_of_fuel : Stream

abbrev pub after : Bytes → Stream → Stream
after r (sealed out) = sealed (r ++ out)
after r seal_failed = seal_failed
after r out_of_fuel = out_of_fuel

-- sealStream from chunk `k` on: `rest` is what the reader has left, `total` what it has given
unfoldable pub seal_from : Aead → ℕ → String → (ℕ → Option Bytes) → ℕ → ℕ → ℕ → Bytes → Stream
seal_from a size_of hash nonces zero k total rest = out_of_fuel
seal_from a size_of hash nonces (suc fuel) k total rest =
    let p = take size_of rest in
    elim (length p == 0) [
      | true ↦ sealed []
      | false ↦ elim (nonces k) [
        | none ↦ seal_failed
        | some nonce ↦ after (record_of a hash total nonce p) (elim (ltb (length p) size_of) [
          | true ↦ sealed []
          | false ↦
              seal_from a size_of hash nonces fuel (suc k) (total + length p) (drop size_of rest)
        ])
      ]
    ]

unfoldable pub seal_stream : Aead → ℕ → String → (ℕ → Option Bytes) → Bytes → Stream
seal_stream a size_of hash nonces content =
    seal_from a size_of hash nonces (suc (length content)) 0 0 content

-- The next record of a file: its plaintext and the rest of the file, the end, or an error.
pub data Parsed : Type 0 where
  parsed : Bytes → Bytes → Parsed
  at_end bad : Parsed

abbrev pub opened : Bytes → Option Bytes → Parsed
opened rest none = bad
opened rest (some p) = parsed p rest

-- a record's ciphertext of `n` bytes, after its length and nonce
abbrev pub open_body : Aead → Bytes → ℕ → Bytes → Bytes → Parsed
open_body a ad n nonce body =
    if ltb (length body) n then bad else opened (drop n body) (a.decrypt nonce (take n body) ad)

unfoldable pub next_record : Aead → String → ℕ → Bytes → Parsed
next_record a hash offset file =
    if length file == 0
    then at_end
    else if ltb (length file) (4 + nonce_size)
    then bad
    else open_body a (chunk_ad offset hash) (get_uint32 file) (take nonce_size (drop 4 file))
        (drop nonce_size (drop 4 file))

pub data Got : Type 0 where
  got : Bytes → Got
  unreadable stuck : Got

-- the loop of Get: `result` is what was decrypted so far, as many bytes as the offset says
unfoldable pub get_from : Aead → String → ℕ → Bytes → Bytes → Got
get_from a hash zero result file = stuck
get_from a hash (suc fuel) result file = elim (next_record a hash (length result) file) [
  | at_end ↦ got result
  | bad ↦ unreadable
  | parsed p rest ↦ get_from a hash fuel (result ++ p) rest
]

-- What WriteTo hands to its writer, and how it ends.
pub data Ended : Type 0 where
  finished broken no_fuel : Ended

-- the loop of WriteTo: `out` is what the writer took so far, of at most `room` bytes
unfoldable pub write_from : Aead → String → ℕ → ℕ → Bytes → Bytes → Bytes × Ended
write_from a hash room zero out file = (out, no_fuel)
write_from a hash room (suc fuel) out file = elim (next_record a hash (length out) file) [
  | at_end ↦ (out, finished)
  | bad ↦ (out, broken)
  | parsed p rest ↦ elim (ltb room (length out + length p)) [
    | true ↦ (out ++ take (room - length out) p, broken)
    | false ↦ write_from a hash room fuel (out ++ p) rest
  ]
]

-- readChunkAt: a seek to the chunk's record, and the record there
abbrev pub answer_of : Parsed → Answer
answer_of at_end = past_end
answer_of bad = failed
answer_of (parsed p rest) = plain p

unfoldable pub read_chunk_at : Aead → ℕ → String → Bytes → ℕ → Answer
read_chunk_at a size_of hash file idx =
    answer_of (next_record a hash (idx * size_of) (drop (idx * full_record_size size_of) file))
