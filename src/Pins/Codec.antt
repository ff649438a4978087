-- ===== src/Pins/Codec.antt =====
-- What the pins take from elsewhere, and how a digest is shown: FingerprintDisplay of
-- internal/e2ee/peer_seal_pin.go and TeeSigningKeyFingerprint of internal/e2ee/tee_signing_pin.go.
use pigcloud_cli.Common.{
  ℕ, ◌+◌, ◌-◌, ◌/◌, ◌%◌, String, List, [], ◌∷◌, ◌++◌, Option, none, some, Bool, true, false, ltb,
  ◌==◌, ◌&&◌, if◌then◌else◌,
}

abbrev pub Bytes : Type 0
Bytes = List ℕ

-- base64.StdEncoding, crypto/sha256, and the key size of the ML-DSA package.
pub record Codec : Type 0 where
  pub decode : String → Option Bytes
  pub encode : Bytes → String
  pub sha256 : Bytes → Bytes
  pub mldsa_pk_size : ℕ

abbrev pub hex_digit : ℕ → ℕ
hex_digit d = if ltb d 10 then b'0' + d else b'a' + (d - 10)

-- hex.EncodeToString
unfoldable pub hex : Bytes → Bytes
hex [] = []
hex (b ∷ bs) = hex_digit (b / 16) ∷ hex_digit (b % 16) ∷ hex bs

-- the loop `for i := 0; i+4 <= len(hexed); i += 4`; a rest shorter than four is dropped
unfoldable pub groups : Bytes → List Bytes
groups (a ∷ b ∷ c ∷ d ∷ rest) = (a ∷ b ∷ c ∷ d ∷ []) ∷ groups rest
groups _ = []

-- strings.Join(groups, " ")
unfoldable pub join_spaces : List Bytes → Bytes
join_spaces [] = []
join_spaces (g ∷ []) = g
join_spaces (g ∷ h ∷ gs) = g ++ (b' ' ∷ join_spaces (h ∷ gs))

unfoldable pub display : Bytes → Bytes
display digest = join_spaces (groups (hex digest))

module _ (c : Codec) where
  abbrev digest_of : Option Bytes → Option Bytes → Bytes
  digest_of none ml = []
  digest_of (some ed) none = []
  digest_of (some ed) (some ml) = display (c.sha256 (ed ++ ml))

  -- TeeSigningKeyFingerprint: "" when a key does not decode.
  unfoldable pub key_fingerprint : String → String → Bytes
  key_fingerprint ed ml = digest_of (c.decode ed) (c.decode ml)

unfoldable pub equal : Bytes → Bytes → Bool
equal [] [] = true
equal (x ∷ xs) (y ∷ ys) = x == y && equal xs ys
equal _ _ = false
