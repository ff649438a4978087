-- ===== src/Cache/Chunks.antt =====
-- The chunk cache and the reads of the content store: internal/mount/cache/store.go. A chunk is
-- its plaintext; what decryption makes of a file's records is a parameter. Offsets and their sums
-- are below 2 ^ 63.
pub mod Slices
pub mod Held
pub mod Reads
use pigcloud_cli.Common.{
  ℕ, zero, suc, ◌+◌, ◌-◌, ◌*◌, ◌/◌, String, List, [], ◌∷◌, ◌++◌, Bool, true, false, not, ◌&&◌, ◌||◌,
  Option, none, some, min, ltb, leb, ◌==◌, same, if◌then◌else◌, length, take, drop, keep,
}
use pigcloud_cli.Pins.Codec.{Bytes}

-- chunkKey
abbrev pub ChunkKey : Type 0
ChunkKey = String × ℕ

abbrev pub same_key : ChunkKey → ChunkKey → Bool
same_key k j = same k.0 j.0 && k.1 == j.1

-- chunkCache and chunkOrder
pub record Chunks : Type 0 where
  pub held : List (ChunkKey × Bytes)
  pub order : List ChunkKey

abbrev pub chunk_cache_max : ℕ
chunk_cache_max = 8

unfoldable pub find_chunk : ChunkKey → List (ChunkKey × Bytes) → Option Bytes
find_chunk k [] = none
find_chunk k ((j, p) ∷ l) = if same_key j k then some p else find_chunk k l

-- delete(m, k)
unfoldable pub forget : ChunkKey → List (ChunkKey × Bytes) → List (ChunkKey × Bytes)
forget k l = keep (λ e. not (same_key e.0 k)) l

-- chunkCacheGet
unfoldable pub chunk_cache_get : Chunks → ChunkKey → Option Bytes
chunk_cache_get c k = find_chunk k c.held

-- the loop that drops the oldest keys
unfoldable pub trim : List (ChunkKey × Bytes) → List ChunkKey → Chunks
trim l [] = record { held = l; order = [] }
trim l (k ∷ ks) = elim (ltb chunk_cache_max (length (k ∷ ks))) [
  | true ↦ trim (forget k l) ks
  | false ↦ record { held = l; order = k ∷ ks }
]

abbrev store_chunk : ChunkKey → Bytes → Chunks → Chunks
store_chunk k p c = record c { held = (k, p) ∷ forget k c.held }

-- chunkCachePut
unfoldable pub chunk_cache_put : Chunks → ChunkKey → Bytes → Chunks
chunk_cache_put c k p = elim (find_chunk k c.held) [
  | some _ ↦ store_chunk k p c
  | none ↦ store_chunk k p (trim c.held (c.order ++ k ∷ []))
]

abbrev pub of_hash : String → ChunkKey → Bool
of_hash hash k = same k.0 hash

forget_all : String → List ChunkKey → List (ChunkKey × Bytes) → List (ChunkKey × Bytes)
forget_all hash [] l = l
forget_all hash (k ∷ ks) l = forget_all hash ks (if of_hash hash k then forget k l else l)

-- chunkCacheDrop
unfoldable pub chunk_cache_drop : Chunks → String → Chunks
unfolding forget_all
chunk_cache_drop c hash = record {
  held = forget_all hash c.order c.held;
  order = keep (λ k. not (of_hash hash k)) c.order;
}

-- readChunkAt: a chunk, errChunkEOF or another error
pub data Answer : Type 0 where
  plain : Bytes → Answer
  past_end failed : Answer

pub data Read : Type 0 where
  read : Bytes → Read
  open_failed chunk_failed out_of_fuel : Read

-- the chunk of a turn, from the cache or the file, or why the loop ends here
pub data Obtained : Type 0 where
  chunk : Bytes → Chunks → Obtained
  stop : Read → Obtained

abbrev of_answer : ChunkKey → Chunks → Bytes → Answer → Obtained
of_answer k c result (plain p) = chunk p (chunk_cache_put c k p)
of_answer k c result past_end = stop (read result)
of_answer k c result failed = stop chunk_failed

abbrev from_file : ChunkKey → Chunks → Bytes → Option (ℕ → Answer) → Obtained
from_file k c result none = stop open_failed
from_file k c result (some f) = of_answer k c result (f k.1)

unfoldable pub obtain : Option (ℕ → Answer) → ChunkKey → Chunks → Bytes → Obtained
obtain file k c result = elim (chunk_cache_get c k) [
  | some p ↦ chunk p c
  | none ↦ from_file k c result file
]

-- plain[sliceStart:sliceEnd] of the chunk that begins at `at`
abbrev pub slice : ℕ → ℕ → ℕ → Bytes → Bytes
slice off range_end at p =
    let slice_start = off - at in
    let slice_end = min (range_end - at) (length p) in
    if ltb slice_start slice_end then take (slice_end - slice_start) (drop slice_start p) else []

-- the loop over the chunks, a turn for each unit of fuel
unfoldable pub read_chunks :
    ℕ → Option (ℕ → Answer) → String → ℕ → ℕ → ℕ → ℕ → Chunks → Bytes → Read × Chunks
read_chunks size_of file hash off range_end zero idx c result = (out_of_fuel, c)
read_chunks size_of file hash off range_end (suc fuel) idx c result =
    elim (ltb (idx * size_of) range_end) [
      | false ↦ (read result, c)
      | true ↦ elim (obtain file (hash, idx) c result) [
        | stop r ↦ (r, c)
        | chunk p c' ↦
            let result' = result ++ slice off range_end (idx * size_of) p in
            elim (length p == 0) [
              | true ↦ (read result, c')
              | false ↦ elim (ltb (length p) size_of) [
                | true ↦ (read result', c')
                | false ↦ read_chunks size_of file hash off range_end fuel (suc idx) c' result'
              ]
            ]
      ]
    ]

-- ReadAt, of chunks of `size_of` bytes
unfoldable pub read_at : ℕ → Option (ℕ → Answer) → String → ℕ → ℕ → Chunks → Read × Chunks
read_at size_of file hash off size c =
    if size == 0
    then (read [], c)
    else read_chunks size_of file hash off (off + size) (suc (size + size_of)) (off / size_of) c []
