-- ===== src/Pins/Peer/Binding.antt =====
-- The signed text of a key bundle binds its four keys.
use pigcloud_cli.Common.{◌++◌, ◌≡◌, refl, sym, ◌∙◌, some, arith, length, append-injective}
use pigcloud_cli.Pins.Codec.{Bytes, Codec}
use pigcloud_cli.Pins.Peer.Bundle.{
  PeerKeyBundle, kyber_public_key_size, ed25519_pk_size, key_bundle_domain, key_bundle_input,
}

-- the sizes of the four keys, and the text
record HasInput (c : Codec) (b : PeerKeyBundle) (input : Bytes) : Type 0 where
  x25519_size : length b.x25519 ≡ 32
  kyber_size : length b.kyber ≡ kyber_public_key_size
  ed25519_size : length b.ed25519 ≡ ed25519_pk_size
  text : input ≡ key_bundle_domain ++ (b.x25519 ++ (b.kyber ++ (b.ed25519 ++ b.mldsa)))

key_bundle_input-HasInput :
    (c : Codec) (b : PeerKeyBundle) (input : Bytes)
    → key_bundle_input c b ≡ some input
    → HasInput c b input
unfolding key_bundle_input
key_bundle_input-HasInput c b input h = record {
  x25519_size = ground arith;
  kyber_size = ground arith;
  ed25519_size = ground arith;
  text = ground arith;
}

-- Two bundles that are signed over the same text have the same four keys.
pub key_bundle_input-injective :
    (c : Codec) (b b' : PeerKeyBundle) (input : Bytes)
    → key_bundle_input c b ≡ some input
    → key_bundle_input c b' ≡ some input
    → (b.x25519 ≡ b'.x25519)
      × (b.kyber ≡ b'.kyber)
      × (b.ed25519 ≡ b'.ed25519)
      × (b.mldsa ≡ b'.mldsa)
key_bundle_input-injective c b b' input h h' =
    let i = key_bundle_input-HasInput c b input h in
    let i' = key_bundle_input-HasInput c b' input h' in
    let (_, keys) =
      append-injective key_bundle_domain key_bundle_domain _ _ refl (sym i.text ∙ i'.text) in
    let (x, rest) =
      append-injective b.x25519 b'.x25519 _ _ (i.x25519_size ∙ sym i'.x25519_size) keys in
    let (k, rest') =
      append-injective b.kyber b'.kyber _ _ (i.kyber_size ∙ sym i'.kyber_size) rest in
    let (e, m) =
      append-injective b.ed25519 b'.ed25519 _ _ (i.ed25519_size ∙ sym i'.ed25519_size) rest' in
    (x, k, e, m)
