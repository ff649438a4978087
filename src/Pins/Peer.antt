-- ===== src/Pins/Peer.antt =====
-- The pins of the keys that data is sealed to: internal/e2ee/peer_seal_pin.go, validPeerName of
-- internal/e2ee/peer_signing_pin.go, and the bundle signatures of internal/crypto/sign.go.
pub mod Bundle
pub mod Trust
pub mod Binding
use pigcloud_cli.Common.{
  ℕ, String, List, [], ◌∷◌, ◌++◌, Bool, true, false, not, ◌&&◌, ◌||◌, Option, none, some, ltb, ◌==◌,
  same, is_empty, if◌then◌else◌, any, lookup, insert, get_or, codes, length,
}
use pigcloud_cli.Pins.{Account}
use pigcloud_cli.Pins.Codec.{Bytes, Codec}
use Bundle.{PeerKeyBundle, Verifier, usable_seal_key, signing_anchors, bundle_self_signed}

-- peerSealPk
pub record PeerPin : Type 0 where
  pub fp : String
  pub ed : String
  pub ml : String

abbrev pub Peers : Type 0
Peers = List (String × PeerPin)

abbrev pub Owners : Type 0
Owners = List (String × Peers)

pub data StoreFile : Type 0 where
  missing : StoreFile
  unreadable : StoreFile
  decoded : ℕ → Option Owners → StoreFile

pub data Error : Type 0 where
  store_unusable key_missing key_changed not_pinnable already_pinned : Error

pub data Result {ℓ} (A : Type ℓ) : Type ℓ where
  ok : A → Result A
  err : Error → Result A

infixl 5 ◌>>=◌
abbrev pub ◌>>=◌ {ℓ κ} : {A : Type ℓ} {B : Type κ} → Result A → (A → Result B) → Result B
ok a >>= f = f a
err e >>= f = err e

abbrev pub pin_version : ℕ
pin_version = 1

abbrev pub max_peer_name_len : ℕ
max_peer_name_len = 64

-- validPeerName; `name` is the byte length and the code points of the name
unfoldable pub valid_peer_name : ℕ → List ℕ → Bool
valid_peer_name len runes =
    if len == 0 || ltb max_peer_name_len len
    then false
    else if any (λ r. ltb r 0x20 || r == 0x7f) runes
    then false
    else not (any (λ r. r == b'/' || r == b'\\') runes)

read_file : StoreFile → Result Owners
read_file missing = ok []
read_file unreadable = err store_unusable
read_file (decoded v none) = err store_unusable
read_file (decoded v (some owners)) =
    if not (v == pin_version) then err store_unusable else ok owners

unfoldable pub load_file : Account → StoreFile → Result Owners
unfolding read_file
load_file a f = if not a.has_path then err store_unusable else read_file f

-- rec, ok && rec.Fp != ""
abbrev pub present : Option PeerPin → Option PeerPin
present none = none
present (some r) = if is_empty r.fp then none else some r

abbrev pub find_peer : String → Option Peers → Option PeerPin
find_peer peer none = none
find_peer peer (some bucket) = present (lookup peer bucket)

-- peerSealRecord; the flag `valid` is validPeerName(peer). The record is `none` where `have` is
-- false.
unfoldable pub seal_record : Account → Bool → StoreFile → String → Result (Option PeerPin)
seal_record a valid f peer =
    if is_empty a.owner || not valid
    then err store_unusable
    else do owners ← load_file a f; ok (find_peer peer (lookup a.owner owners))

-- writePeerSealRecord. `written` says whether the store is written: its directory and its lock file
-- are not part of the state, so that a failing MkdirAll, lock or WriteFileAtomic is one case, in which
-- the store has its old content.
unfoldable pub write_record :
    Account → Bool → Bool → StoreFile → String → PeerPin → StoreFile × Result (Unit {0})
write_record a valid written f peer r =
    if not a.has_path || is_empty a.owner || not valid
    then (f, err store_unusable)
    else elim (load_file a f) [
      | err e ↦ (f, err e)
      | ok owners ↦
          if written
          then (
            decoded pin_version
                (some (insert a.owner (insert peer r (get_or [] (lookup a.owner owners))) owners)),
            ok tt,
          )
          else (f, err store_unusable)
    ]

unfoldable pub anchored : PeerPin → Bool
anchored r = not (is_empty r.ed) && not (is_empty r.ml)

module _ (c : Codec) (v : Verifier) where
  unfoldable pub fingerprint : PeerKeyBundle → String
  fingerprint b = c.encode (c.sha256 (b.x25519 ++ b.kyber))

  unfoldable pub attributable : PeerPin → PeerKeyBundle → Bool
  unfolding anchored
  attributable r b =
      if not (anchored r)
      then false
      else let (ed, ml) = signing_anchors c b in
        if not (same ed r.ed) || not (same ml r.ml) then false else bundle_self_signed c v b

  unfoldable pub offered_pin : PeerKeyBundle → PeerPin
  offered_pin b =
      let (ed, ml) = signing_anchors c b in record { fp = fingerprint b; ed = ed; ml = ml }

  -- the switch of PinPeerSealKey: whether the offered pin is to be written
  unfoldable pub decide : Option PeerPin → PeerKeyBundle → Result Bool
  decide none b = ok true
  decide (some r) b =
      if same r.fp (fingerprint b)
      then ok false
      else if attributable r b
      then ok true
      else err key_changed

  abbrev after_decision :
      Account
      → Bool
      → Bool
      → StoreFile
      → String
      → PeerKeyBundle
      → Result Bool
      → StoreFile × Result (Unit {0})
  after_decision a valid written f peer b (err e) = (f, err e)
  after_decision a valid written f peer b (ok false) = (f, ok tt)
  after_decision a valid written f peer b (ok true) =
      write_record a valid written f peer (offered_pin b)

  -- PinPeerSealKey; `none` is a nil bundle
  unfoldable pub pin_key :
      Account
      → Bool
      → Bool
      → StoreFile
      → String
      → Option PeerKeyBundle
      → StoreFile × Result (Unit {0})
  pin_key a valid written f peer none = (f, err key_missing)
  pin_key a valid written f peer (some b) =
      if not valid
      then (f, err key_missing)
      else if not (usable_seal_key b)
      then (f, err key_missing)
      else after_decision a valid written f peer b (seal_record a valid f peer >>= λ r. decide r b)

  abbrev same_fingerprint : Option PeerPin → PeerKeyBundle → Bool
  same_fingerprint none b = false
  same_fingerprint (some r) b = same r.fp (fingerprint b)

  -- RepinPeerSealKey
  unfoldable pub repin_key :
      Account
      → Bool
      → Bool
      → StoreFile
      → String
      → Option PeerKeyBundle
      → StoreFile × Result (Unit {0})
  repin_key a valid written f peer none = (f, err not_pinnable)
  repin_key a valid written f peer (some b) =
      if not valid
      then (f, err not_pinnable)
      else if not (usable_seal_key b)
      then (f, err not_pinnable)
      else elim (seal_record a valid f peer) [
        | err e ↦ (f, err e)
        | ok r ↦
            if same_fingerprint r b
            then (f, err already_pinned)
            else write_record a valid written f peer (offered_pin b)
      ]
