-- ===== src/Formats/Names.antt =====
-- The padding of display names: internal/crypto/names.go.
use pigcloud_cli.Common.{
  ℕ, zero, suc, ◌+◌, ◌-◌, ◌*◌, ◌/◌, ◌%◌, ◌≤◌, ◌<◌, List, [], ◌∷◌, ◌++◌, Bool, true, false, not, ◌≡◌,
  refl, arith, ap, ltb, leb, ◌==◌, if◌then◌else◌, length, length-append, take, take-append, any,
  Bool-cases, inl, inr,
}
use pigcloud_cli.Pins.Codec.{Bytes}

abbrev pub display_name_pad_buckets : List ℕ
display_name_pad_buckets = 64 ∷ 128 ∷ 256 ∷ 512 ∷ 888 ∷ []

abbrev pub display_name_pad_marker : ℕ
display_name_pad_marker = 0xff

abbrev pub display_name_pad_version : ℕ
display_name_pad_version = 1

abbrev pub display_name_pad_header : ℕ
display_name_pad_header = 4

-- the loop over the buckets; 0 where none is large enough
unfoldable pub pick_bucket : ℕ → List ℕ → ℕ
pick_bucket total [] = 0
pick_bucket total (b ∷ bs) = if leb total b then b else pick_bucket total bs

abbrev pub zeros : ℕ → Bytes
zeros zero = []
zeros (suc n) = 0 ∷ zeros n

-- the buffer of a bucket that holds the header and the name
unfoldable pub fill : ℕ → Bytes → Bytes
fill bucket name =
    display_name_pad_marker
    ∷ display_name_pad_version
    ∷ length name / 256 % 256
    ∷ length name % 256
    ∷ (name ++ zeros (bucket - (display_name_pad_header + length name)))

-- name[0] of a name that is not empty
abbrev pub is_marked : Bytes → Bool
is_marked [] = false
is_marked (b ∷ bs) = b == display_name_pad_marker

-- padDisplayName
unfoldable pub pad_display_name : Bytes → Bytes
pad_display_name name =
    let total = display_name_pad_header + length name in
    let bucket = pick_bucket total display_name_pad_buckets in
    if not (bucket == 0)
    then fill bucket name
    else if not (is_marked name)
    then name
    else fill total name

pub data Unpadded : Type 0 where
  text : Bytes → Unpadded
  unknown_version out_of_bounds : Unpadded

-- unpadDisplayName
unfoldable pub unpad_display_name : Bytes → Unpadded
unpad_display_name (m ∷ v ∷ hi ∷ lo ∷ rest) =
    if not (m == display_name_pad_marker)
    then text (m ∷ v ∷ hi ∷ lo ∷ rest)
    else if not (v == display_name_pad_version)
    then unknown_version
    else if ltb (length rest) (hi * 256 + lo)
    then out_of_bounds
    else text (take (hi * 256 + lo) rest)
unpad_display_name plain = text plain

size_bytes : (n : ℕ) → n < 65536 → n / 256 % 256 * 256 + n % 256 ≡ n
size_bytes n h = omega arith

unpad-fill :
    (bucket : ℕ) (name : Bytes)
    → length name < 65536
    → unpad_display_name (fill bucket name) ≡ text name
unfolding unpad_display_name fill
unpad-fill bucket name h = rw (size_bytes (length name) h) (
    ground (
      arith,
      length-append name (zeros (bucket - (4 + length name))),
      take-append name (zeros (bucket - (4 + length name))),
    ))

unpad-unmarked : (name : Bytes) → is_marked name ≡ false → unpad_display_name name ≡ text name
unfolding unpad_display_name
unpad-unmarked [] h = refl
unpad-unmarked (a ∷ []) h = refl
unpad-unmarked (a ∷ b ∷ []) h = refl
unpad-unmarked (a ∷ b ∷ c ∷ []) h = refl
unpad-unmarked (a ∷ b ∷ c ∷ d ∷ rest) h = rw h refl

-- Every display name of less than 64 KiB comes back from its padded form.
pub unpad-pad_display_name :
    (name : Bytes) → length name < 65536 → unpad_display_name (pad_display_name name) ≡ text name
unfolding pad_display_name
unpad-pad_display_name name h =
    elim (Bool-cases (pick_bucket (4 + length name) display_name_pad_buckets == 0)) [
      | inr holds ↦ rw holds (unpad-fill _ name h)
      | inl none_holds ↦ rw none_holds (elim (Bool-cases (is_marked name)) [
        | inl marked ↦ rw marked (unpad-fill _ name h)
        | inr plain ↦ rw plain (unpad-unmarked name plain)
      ])
    ]

length-zeros : (n : ℕ) → length (zeros n) ≡ n
length-zeros zero = refl
length-zeros (suc n) = ap suc (length-zeros n)

length-fill :
    (bucket : ℕ) (name : Bytes) → 4 + length name ≤ bucket → length (fill bucket name) ≡ bucket
unfolding fill
length-fill bucket name h = omega (
  arith,
  h,
  length-append name (zeros (bucket - (4 + length name))),
  length-zeros (bucket - (4 + length name)),
)

-- The bucket that a total is given.
abbrev LeastBucket : ℕ → ℕ → Type 0
LeastBucket total n =
    (any (λ b. b == n) display_name_pad_buckets ≡ true)
    × (total ≤ n)
    × ((b : ℕ) → any (λ c. c == b) display_name_pad_buckets ≡ true → total ≤ b → n ≤ b)

pick_bucket-LeastBucket :
    (total : ℕ) → total ≤ 888 → LeastBucket total (pick_bucket total display_name_pad_buckets)
unfolding pick_bucket
pick_bucket-LeastBucket total h = (ground arith, ground arith, λ b there fits. ground arith)

length-pad_picked :
    (name : Bytes)
    → length name ≤ 884
    → length (pad_display_name name) ≡ pick_bucket (4 + length name) display_name_pad_buckets
unfolding pad_display_name
length-pad_picked name h =
    let (_, fits, _) = pick_bucket-LeastBucket (4 + length name) (omega arith) in
    elim (Bool-cases (pick_bucket (4 + length name) display_name_pad_buckets == 0)) [
      | inr holds ↦ rw holds (length-fill _ name fits)
      | inl none_holds ↦ absurd (ground (arith, none_holds, fits))
    ]

-- Five sizes are all that a name's sealed form tells of it: the padded form of a name of at most
-- 884 bytes is 64, 128, 256, 512 or 888 bytes long, the least of these that holds the name and four
-- bytes more.
length-pad_display_name :
    (name : Bytes)
    → length name ≤ 884
    → let n = length (pad_display_name name) in
      (any (λ b. b == n) display_name_pad_buckets ≡ true)
      × (4 + length name ≤ n)
      × ((b : ℕ) → any (λ c. c == b) display_name_pad_buckets ≡ true → 4 + length name ≤ b → n ≤ b)
length-pad_display_name name h =
    rw (length-pad_picked name h) (pick_bucket-LeastBucket (4 + length name) (omega arith))
