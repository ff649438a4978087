-- ===== src/Tests/Contents.antt =====
-- A read of a small content in chunks of two bytes.
use pigcloud_cli.Common.{ℕ, ◌*◌, [], ◌∷◌, ◌≡◌, refl, some, arith, ltb, if◌then◌else◌}
use pigcloud_cli.Pins.Codec.{Bytes}
use pigcloud_cli.Cache.Chunks.{
  Chunks, Answer, plain, past_end, read, read_at, chunk_cache_get, find_chunk,
}
use pigcloud_cli.Cache.Chunks.Reads.{Faithful, chunk_of, read_at-content}

abbrev content : Bytes
content = 10 ∷ 11 ∷ 12 ∷ 13 ∷ 14 ∷ []

abbrev file : ℕ → Answer
file i = if ltb (i * 2) 5 then plain (chunk_of 2 content i) else past_end

abbrev nothing_held : Chunks
nothing_held = record { held = []; order = [] }

read_at-content_example :
    let (r, c') = read_at 2 (some file) "h1" 1 3 nothing_held in
    (r ≡ read (11 ∷ 12 ∷ 13 ∷ [])) × Faithful 2 content "h1" c'
read_at-content_example =
    read_at-content 2 content file "h1" 1 3 nothing_held (omega arith) (λ i. refl)
      (unfold chunk_cache_get find_chunk in λ i p e. absurd cc)
