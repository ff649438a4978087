-- ===== src/Cache/Blobs.antt =====
-- The files of the content store and their byte counter: internal/mount/cache/store.go. A blob is
-- its name and its size on disk; the counter is a 64-bit pattern.
use pigcloud_cli.Common.{
  ℕ, ◌+◌, ◌-◌, String, List, [], ◌∷◌, Bool, true, false, not, ◌||◌, leb, same, is_empty,
  if◌then◌else◌, keep, any, map,
}
use Prim.Native.Nat.{◌%◌}

pub record Store : Type 0 where
  pub blobs : List (String × ℕ)
  pub counter : ℕ

-- 2 ^ 63 and 2 ^ 64
abbrev pub sign : ℕ
sign = 9223372036854775808

abbrev pub words : ℕ
words = 18446744073709551616

-- a < 0 and a <= b on int64
abbrev pub is_negative : ℕ → Bool
is_negative a = leb sign (a % words)

abbrev pub signed_le : ℕ → ℕ → Bool
signed_le a b = leb ((a + sign) % words) ((b + sign) % words)

sizes : List (String × ℕ) → ℕ
sizes [] = 0
sizes ((hash, size) ∷ bs) = size + sizes bs

-- walkBytes
unfoldable pub walk_bytes : Store → ℕ
unfolding sizes
walk_bytes s = sizes s.blobs % words

-- Bytes, with ResyncBytes for a negative counter
unfoldable pub bytes : Store → ℕ × Store
bytes s =
    if not (is_negative s.counter)
    then (s.counter, s)
    else (walk_bytes s, record s { counter = walk_bytes s })

abbrev pub is_named : String → String × ℕ → Bool
is_named hash b = same b.0 hash

-- Has
unfoldable pub has : Store → String → Bool
has s hash = any (is_named hash) s.blobs

-- the size that os.Stat gives, 0 where there is no file
size_of : String → List (String × ℕ) → ℕ
size_of hash [] = 0
size_of hash ((h, size) ∷ bs) = if same h hash then size else size_of hash bs

-- Remove, with its success; `stuck` are the files that os.Remove fails on
unfoldable pub remove : (String → Bool) → Store → String → Store × Bool
unfolding size_of
remove stuck s hash =
    if is_empty hash then (s, true) else if stuck hash || not (has s hash) then (s, false) else (
      record {
        blobs = keep (λ b. not (is_named hash b)) s.blobs;
        counter = (s.counter + (words - size_of hash s.blobs % words)) % words;
      },
      true,
    )

-- ListHashes
unfoldable pub list_hashes : Store → List String
list_hashes s = map (λ b. b.0) s.blobs

-- putSealed, of a blob that takes `size` bytes on disk and whose every write succeeds
unfoldable pub put_blob : Store → String → ℕ → Store
put_blob s hash size =
    if has s hash
    then s
    else record { blobs = (hash, size) ∷ s.blobs; counter = (s.counter + size) % words }
