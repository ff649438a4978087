-- ===== src/Formats/Frames.antt =====
-- The frame of an index body: internal/crypto/frame.go.
use pigcloud_cli.Common.{
  ℕ, ◌+◌, ◌*◌, ◌≡◌, ◌<◌, [], ◌∷◌, ◌++◌, false, refl, arith, ltb, ◌==◌, if◌then◌else◌, length,
  length-append, take, take-append, Option, none, some, ◌/◌, ◌%◌,
}
use pigcloud_cli.Pins.Codec.{Bytes}

abbrev pub frame_version_json : ℕ
frame_version_json = 1

abbrev pub frame_version_gzip : ℕ
frame_version_gzip = 2

abbrev pub frame_version_padded : ℕ
frame_version_padded = 4

abbrev pub frame_version_bare_json : ℕ
frame_version_bare_json = 0x7b

pub data FrameError : Type 0 where
  empty truncated length_out_of_range empty_inner unknown_version bad_gzip : FrameError

pub data Unframed : Type 0 where
  body : Bytes → Unframed
  refused : FrameError → Unframed

abbrev of_gzip : Option Bytes → Unframed
of_gzip none = refused bad_gzip
of_gzip (some b) = body b

-- the switch on the version; `gunzip` is compress/gzip with io.ReadAll
unfoldable pub unframe_inner : (Bytes → Option Bytes) → Bytes → Unframed
unframe_inner gunzip [] = refused empty_inner
unframe_inner gunzip (v ∷ rest) =
    if v == frame_version_json
    then body rest
    else if v == frame_version_bare_json
    then body (v ∷ rest)
    else if v == frame_version_gzip
    then of_gzip (gunzip rest)
    else refused unknown_version

-- big-endian uint32
abbrev pub uint32 : ℕ → ℕ → ℕ → ℕ → ℕ
uint32 a b c d = ((a * 256 + b) * 256 + c) * 256 + d

-- what stands behind the version of a padded frame
unfoldable pub unpad_frame : (Bytes → Option Bytes) → Bytes → Unframed
unpad_frame gunzip (a ∷ b ∷ c ∷ d ∷ rest) =
    if ltb (length rest) (uint32 a b c d)
    then refused length_out_of_range
    else unframe_inner gunzip (take (uint32 a b c d) rest)
unpad_frame gunzip _ = refused truncated

-- UnframeIndexBody
unfoldable pub unframe_index_body : (Bytes → Option Bytes) → Bytes → Unframed
unframe_index_body gunzip [] = refused empty
unframe_index_body gunzip (v ∷ rest) =
    if v == frame_version_padded then unpad_frame gunzip rest else unframe_inner gunzip (v ∷ rest)

-- The padded frame of an inner frame: its length in four bytes, the frame, and any padding.
abbrev pub padded : Bytes → Bytes → Bytes
padded inner padding =
    frame_version_padded
    ∷ length inner / 16777216 % 256
    ∷ length inner / 65536 % 256
    ∷ length inner / 256 % 256
    ∷ length inner % 256
    ∷ (inner ++ padding)

size_bytes :
    (n : ℕ)
    → n < 4294967296
    → uint32 (n / 16777216 % 256) (n / 65536 % 256) (n / 256 % 256) (n % 256) ≡ n
size_bytes n h = omega arith

unpad_frame-padded :
    (gunzip : Bytes → Option Bytes) (inner padding : Bytes)
    → length inner < 4294967296
    → unpad_frame gunzip (
        length inner / 16777216 % 256
        ∷ length inner / 65536 % 256
        ∷ length inner / 256 % 256
        ∷ length inner % 256
        ∷ (inner ++ padding))
      ≡ unframe_inner gunzip inner
unfolding unpad_frame
unpad_frame-padded gunzip inner padding bound =
    let fits : ltb (length (inner ++ padding)) (length inner) ≡ false =
      ground (arith, length-append inner padding) in
    rw (size_bytes (length inner) bound) (rw (fits, take-append inner padding) refl)

-- Padding does not change what a frame says: a padded frame is read as its inner frame is, whatever
-- bytes stand behind it, for an inner frame of less than 4 GiB that is not itself padded.
pub unframe-padded :
    (gunzip : Bytes → Option Bytes) (v : ℕ) (rest padding : Bytes)
    → (v == frame_version_padded) ≡ false
    → length (v ∷ rest) < 4294967296
    → unframe_index_body gunzip (padded (v ∷ rest) padding) ≡ unframe_index_body gunzip (v ∷ rest)
unfolding unframe_index_body
unframe-padded gunzip v rest padding h bound =
    rw h (unpad_frame-padded gunzip (v ∷ rest) padding bound)
