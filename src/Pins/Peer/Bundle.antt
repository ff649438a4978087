-- ===== src/Pins/Peer/Bundle.antt =====
-- A peer's served keys, and the signature over them: PeerKeyBundle of
-- internal/e2ee/peer_seal_pin.go and KeyBundle of internal/crypto/sign.go.
use pigcloud_cli.Common.{
  ℕ, String, ◌++◌, Bool, false, not, ◌&&◌, ◌||◌, Option, none, some, ◌==◌, if◌then◌else◌, length,
  codes,
}
use pigcloud_cli.Pins.Codec.{Bytes, Codec}

pub record PeerKeyBundle : Type 0 where
  pub x25519 : Bytes
  pub kyber : Bytes
  pub ed25519 : Bytes
  pub mldsa : Bytes
  pub bundle_sig : Bytes

-- keyBundleSigBlob
pub record SigBlob : Type 0 where
  pub version : ℕ
  pub sig_ed : String
  pub sig_ml : String

-- json.Unmarshal at keyBundleSigBlob, crypto/ed25519 and the ML-DSA package.
pub record Verifier : Type 0 where
  pub parse_blob : Bytes → Option SigBlob
  pub verify_ed : Bytes → Bytes → Bytes → Bool
  pub parse_ml : Bytes → Bool
  pub verify_ml : Bytes → Bytes → Bytes → Bool
  pub mldsa_sig_size : ℕ

abbrev pub kyber_public_key_size : ℕ
kyber_public_key_size = 1184

abbrev pub ed25519_pk_size : ℕ
ed25519_pk_size = 32

abbrev pub ed25519_sig_size : ℕ
ed25519_sig_size = 64

unfoldable pub usable_seal_key : PeerKeyBundle → Bool
usable_seal_key b = length b.x25519 == 32 && length b.kyber == kyber_public_key_size

abbrev pub has_anchors : Codec → PeerKeyBundle → Bool
has_anchors c b = length b.ed25519 == ed25519_pk_size && length b.mldsa == c.mldsa_pk_size

unfoldable pub signing_anchors : Codec → PeerKeyBundle → String × String
signing_anchors c b = if has_anchors c b then (c.encode b.ed25519, c.encode b.mldsa) else ("", "")

abbrev pub key_bundle_domain : Bytes
key_bundle_domain = codes "pigcloud-key-bundle-v1"

-- keyBundleInput: the domain and the four keys, each of its exact size
unfoldable pub key_bundle_input : Codec → PeerKeyBundle → Option Bytes
key_bundle_input c b =
    if not (length b.x25519 == 32)
    then none
    else if not (length b.kyber == kyber_public_key_size)
    then none
    else if not (length b.ed25519 == ed25519_pk_size)
    then none
    else if not (length b.mldsa == c.mldsa_pk_size)
    then none
    else some (key_bundle_domain ++ (b.x25519 ++ (b.kyber ++ (b.ed25519 ++ b.mldsa))))

verify_input : Codec → Verifier → PeerKeyBundle → Bytes → Bytes → Option Bytes → Bool
verify_input c v b sig_ed sig_ml none = false
verify_input c v b sig_ed sig_ml (some input) =
    if not (length sig_ed == ed25519_sig_size) || not (length sig_ml == v.mldsa_sig_size)
    then false
    else if not (v.verify_ed b.ed25519 input sig_ed)
    then false
    else if not (v.parse_ml b.mldsa)
    then false
    else v.verify_ml b.mldsa input sig_ml

unfoldable pub verify_key_bundle : Codec → Verifier → PeerKeyBundle → Bytes → Bytes → Bool
unfolding verify_input
verify_key_bundle c v b sig_ed sig_ml = verify_input c v b sig_ed sig_ml (key_bundle_input c b)

verify_decoded : Codec → Verifier → PeerKeyBundle → Option Bytes → Option Bytes → Bool
verify_decoded c v b none sig_ml = false
verify_decoded c v b (some sig_ed) none = false
verify_decoded c v b (some sig_ed) (some sig_ml) = verify_key_bundle c v b sig_ed sig_ml

verify_blob : Codec → Verifier → PeerKeyBundle → Option SigBlob → Bool
verify_blob c v b none = false
verify_blob c v b (some s) =
    if not (s.version == 1)
    then false
    else verify_decoded c v b (c.decode s.sig_ed) (c.decode s.sig_ml)

-- bundleSelfSigned
unfoldable pub bundle_self_signed : Codec → Verifier → PeerKeyBundle → Bool
unfolding verify_blob verify_decoded
bundle_self_signed c v b =
    if not (usable_seal_key b) || not (has_anchors c b) || length b.bundle_sig == 0
    then false
    else verify_blob c v b (v.parse_blob b.bundle_sig)
