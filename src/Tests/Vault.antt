-- ===== src/Tests/Vault.antt =====
-- A small store in chunks of two bytes, with a cipher that only appends its tag and a hash that
-- spells a content out.
use Prim.Native.Char.{code}
use Prim.Native.String.{String}
use pigcloud_cli.Common.{
  ℕ, zero, suc, ◌-◌, [], ◌∷◌, ◌++◌, ◌≡◌, refl, ap, Bool, true, false, ◌==◌, some, arith, length,
  length-append, take, lookup,
}
use pigcloud_cli.Pins.Codec.{Bytes}
use pigcloud_cli.Cache.Chunks.{Chunks, read, chunk_cache_get, find_chunk}
use pigcloud_cli.Cache.Records.{Aead, got, broken}
use pigcloud_cli.Cache.Records.Vault.{get, Disk, Contents, put, put_file, read_blob, write_to}
use pigcloud_cli.Cache.Records.Sealed.{Opens, AddsTag, take-append_at}
use pigcloud_cli.Cache.Records.Ingest.{IsSound, NoCollisions, Outcome}
use pigcloud_cli.Cache.Records.Stored.{put-restored, puts-Outcome}
use pigcloud_cli.Cache.Records.Sent.{write_to-get}

abbrev tag : Bytes
tag = 0 ∷ 0 ∷ 0 ∷ 0 ∷ 0 ∷ 0 ∷ 0 ∷ 0 ∷ 0 ∷ 0 ∷ 0 ∷ 0 ∷ 0 ∷ 0 ∷ 0 ∷ 0 ∷ []

abbrev tagging : Aead
tagging = record {
  encrypt = λ nonce p ad. p ++ tag;
  decrypt = λ nonce c ad. some (take (length c - 16) c);
}

tagging-Opens : Opens tagging
tagging-Opens nonce p ad =
    ap some (take-append_at (length (p ++ tag) - 16) p tag (omega (arith, length-append p tag)))

tagging-AddsTag : AddsTag tagging
tagging-AddsTag nonce p ad = length-append p tag

abbrev nonce : Bytes
nonce =
    1 ∷ 1 ∷ 1 ∷ 1 ∷ 1 ∷ 1 ∷ 1 ∷ 1 ∷ 1 ∷ 1 ∷ 1 ∷ 1 ∷ 1 ∷ 1 ∷ 1 ∷ 1 ∷ 1 ∷ 1 ∷ 1 ∷ 1 ∷ 1 ∷ 1 ∷ 1 ∷ 1
    ∷ []

-- a number in unary, before the rest
abbrev ticks : ℕ → String → String
ticks zero t = String.◌∷◌ "b" t
ticks (suc n) t = String.◌∷◌ "a" (ticks n t)

abbrev spelled : Bytes → String
spelled [] = ""
spelled (n ∷ p) = ticks n (spelled p)

abbrev rest : String → String
rest String.[] = ""
rest (String.◌∷◌ c s) = s

-- whether a text begins with the end of a number
abbrev ends : String → Bool
ends String.[] = false
ends (String.◌∷◌ c s) = code c == b'b'

abbrev is_nothing : String → Bool
is_nothing String.[] = true
is_nothing (String.◌∷◌ c s) = false

ticks-injective : (n m : ℕ) (t u : String) → ticks n t ≡ ticks m u → (n ≡ m) × (t ≡ u)
ticks-injective zero zero t u e = (refl, ap rest e)
ticks-injective zero (suc m) t u e = absurd (cc (ap ends e))
ticks-injective (suc n) zero t u e = absurd (cc (ap ends e))
ticks-injective (suc n) (suc m) t u e =
    let (same_count, same_rest) = ticks-injective n m t u (ap rest e) in
    (ap suc same_count, same_rest)

spelled-NoCollisions : NoCollisions spelled
spelled-NoCollisions [] [] e = refl
spelled-NoCollisions [] (zero ∷ q) e = absurd (cc (ap is_nothing e))
spelled-NoCollisions [] (suc m ∷ q) e = absurd (cc (ap is_nothing e))
spelled-NoCollisions (zero ∷ p) [] e = absurd (cc (ap is_nothing e))
spelled-NoCollisions (suc n ∷ p) [] e = absurd (cc (ap is_nothing e))
spelled-NoCollisions (n ∷ p) (m ∷ q) e =
    let (same_head, same_rest) = ticks-injective n m (spelled p) (spelled q) e in
    cc (spelled-NoCollisions p q same_rest)

abbrev empty_store : Contents
empty_store = record { files = []; counter = 0 }

empty_store-IsSound : IsSound tagging 2 spelled empty_store
empty_store-IsSound = unfold lookup in λ hash file e. absurd cc

abbrev willing : Disk
willing = record { created = true; written = true; renamed = true; sized = true }

-- A disk that runs full while the records are written.
abbrev full_disk : Disk
full_disk = record { created = true; written = false; renamed = true; sized = true }

abbrev nothing_held : Chunks
nothing_held = record { held = []; order = [] }

put-restored_example :
    let (s', name) = put tagging 2 spelled (λ k. some nonce) willing empty_store (1 ∷ 0 ∷ 2 ∷ []) in
    (name ≡ some "abbaab")
    × (get tagging s' "abbaab" ≡ got (1 ∷ 0 ∷ 2 ∷ []))
    × ((read_blob tagging 2 s' "abbaab" 1 2 nothing_held).0 ≡ read (0 ∷ 2 ∷ []))
put-restored_example =
    put-restored tagging 2 spelled (λ k. some nonce) tagging-Opens tagging-AddsTag
      (λ k. (nonce, refl, refl)) (omega arith) (omega arith) spelled-NoCollisions empty_store
      empty_store-IsSound willing (1 ∷ 0 ∷ 2 ∷ []) 1 2 nothing_held refl
      (unfold chunk_cache_get find_chunk in λ i p e. absurd cc)

puts-Outcome_example :
    Outcome tagging 2 spelled empty_store
      (1 ∷ [])
      (put tagging 2 spelled (λ k. some nonce) full_disk empty_store (1 ∷ []))
    × Outcome tagging 2 spelled empty_store
        (1 ∷ [])
        (put_file tagging 2 spelled (λ k. some nonce) full_disk empty_store (1 ∷ []) (3 ∷ []))
puts-Outcome_example =
    puts-Outcome tagging 2 spelled (λ k. some nonce) tagging-Opens tagging-AddsTag
      (λ k. (nonce, refl, refl)) (omega arith) (omega arith) spelled-NoCollisions empty_store
      empty_store-IsSound full_disk (1 ∷ []) (3 ∷ [])

-- The store with three bytes in it.
abbrev filled : Contents
filled = (put tagging 2 spelled (λ k. some nonce) willing empty_store (1 ∷ 0 ∷ 2 ∷ [])).0

filled-content : get tagging filled "abbaab" ≡ got (1 ∷ 0 ∷ 2 ∷ [])
filled-content =
    (put-restored tagging 2 spelled (λ k. some nonce) tagging-Opens tagging-AddsTag
      (λ k. (nonce, refl, refl)) (omega arith) (omega arith) spelled-NoCollisions empty_store
      empty_store-IsSound willing (1 ∷ 0 ∷ 2 ∷ []) 1 2 nothing_held refl
      (unfold chunk_cache_get find_chunk in λ i p e. absurd cc)).1

-- A writer that has room for two bytes of the three.
write_to-get_example : write_to tagging filled "abbaab" 2 ≡ (1 ∷ 0 ∷ [], broken)
write_to-get_example = write_to-get tagging filled "abbaab" 2 (1 ∷ 0 ∷ 2 ∷ []) filled-content
