-- ===== src/Tests/PeerPins.antt =====
-- The pins of peers' keys, and the own key history, on small stores.
use pigcloud_cli.Common.{
  ℕ, List, [], ◌∷◌, ◌++◌, true, ◌≡◌, refl, Option, none, some, length, codes, lookup,
}
use pigcloud_cli.Pins.Codec.{Bytes}
use pigcloud_cli.Pins.Peer.{
  PeerPin, StoreFile, missing, decoded, ok, load_file, seal_record, fingerprint, attributable,
  decide, write_record, pin_key,
}
use pigcloud_cli.Pins.Peer.Bundle.{
  PeerKeyBundle, Verifier, usable_seal_key, key_bundle_input, key_bundle_domain,
}
use pigcloud_cli.Pins.Peer.Trust.{Warranted, Pinned, pin_key-Warranted, serve, serve-unsigned}
use pigcloud_cli.Pins.Peer.Binding.{key_bundle_input-injective}
use pigcloud_cli.Pins.Own.{HistoryBlob, decode_keys, signed_by_own, history_domain, verify_history}
use pigcloud_cli.Pins.Own.History.{join, verify_history-signed}
use pigcloud_cli.Pins.Signers as Signers
use pigcloud_cli.Pins.Signers.{Friends, changed, record_pk, check_foreign_signer, signing_pk_seen}
use pigcloud_cli.Pins.Signers.FirstUse.{check_foreign_signer-record}
use pigcloud_cli.Tests.{repeat, plain, alice}

abbrev trusting : Verifier
trusting = record {
  parse_blob = λ b. none;
  verify_ed = λ k t s. true;
  parse_ml = λ k. true;
  verify_ml = λ k t s. true;
  mldsa_sig_size = 3;
}

abbrev bundle : ℕ → PeerKeyBundle
bundle k = record {
  x25519 = repeat 32 k;
  kyber = repeat 1184 k;
  ed25519 = repeat 32 1;
  mldsa = 1 ∷ 2 ∷ [];
  bundle_sig = [];
}

abbrev bob_pin : PeerPin
bob_pin = record { fp = "seven"; ed = ""; ml = "" }

abbrev store : StoreFile
store = decoded 1 (some (("alice", ("bob", bob_pin) ∷ []) ∷ []))

bob_stored : seal_record alice true store "bob" ≡ ok (some bob_pin)
bob_stored = unfold seal_record load_file lookup in refl

serve-unsigned_example :
    serve plain trusting alice true true store "bob" (bundle 8 ∷ bundle 9 ∷ []) ≡ store
serve-unsigned_example =
    serve-unsigned plain trusting alice true true store "bob" bob_pin (bundle 8 ∷ bundle 9 ∷ [])
      bob_stored
      (
        (unfold fingerprint in refl, unfold attributable in refl),
        ((unfold fingerprint in refl, unfold attributable in refl), tt),
      )

pin_key-Warranted_example :
    (usable_seal_key (bundle 7) ≡ true)
    × ((before : Option PeerPin) × (seal_record alice true missing "bob" ≡ ok before)
        × Warranted plain trusting before (bundle 7))
    × Pinned plain trusting alice true true missing "bob"
        (bundle 7)
        (pin_key plain trusting alice true true missing "bob" (some (bundle 7))).0
unfolding lookup
pin_key-Warranted_example =
    pin_key-Warranted plain trusting alice true true missing "bob" (bundle 7)
      (unfold fingerprint in refl)
      (unfold pin_key usable_seal_key seal_record load_file decide write_record in refl)

abbrev signed_text : Bytes
signed_text = key_bundle_domain ++ (repeat 32 4 ++ (repeat 1184 4 ++ (repeat 32 1 ++ 1 ∷ 2 ∷ [])))

key_bundle_input-injective_example :
    ((bundle 4).x25519 ≡ repeat 32 4)
    × ((bundle 4).kyber ≡ repeat 1184 4)
    × ((bundle 4).ed25519 ≡ repeat 32 1)
    × ((bundle 4).mldsa ≡ 1 ∷ 2 ∷ [])
key_bundle_input-injective_example =
    key_bundle_input-injective plain (bundle 4) (bundle 4) signed_text
      (unfold key_bundle_input in refl) (unfold key_bundle_input in refl)

abbrev history : HistoryBlob
history = record { version = 1; eds = "a" ∷ "b" ∷ []; sig_ed = "s"; sig_ml = "t" }

abbrev old_keys : List Bytes
old_keys = codes "a" ∷ codes "b" ∷ []

verify_history-signed_example :
    (sig_ed : Bytes) × (sig_ml : Bytes) × (some (codes "s") ≡ some sig_ed)
    × (some (codes "t") ≡ some sig_ml)
    × (length (bundle 1).ed25519 ≡ 32)
    × (length (bundle 1).mldsa ≡ 2)
    × (trusting.verify_ed (repeat 32 1) (history_domain ++ join old_keys) sig_ed ≡ true)
    × (trusting.verify_ml (1 ∷ 2 ∷ []) (history_domain ++ join old_keys) sig_ml ≡ true)
verify_history-signed_example =
    verify_history-signed plain trusting history (repeat 32 1) (1 ∷ 2 ∷ []) old_keys
      (unfold verify_history decode_keys signed_by_own in refl)

abbrev friends : Friends
friends = record { set = some ("bob" ∷ []); fetched_at = 1000; next_try = 0 }

check_foreign_signer-record_example :
    check_foreign_signer alice true
      (Signers.record_signing_pk alice true true Signers.unusable "bob" "key")
      friends
      2000
      none
      "bob"
      "other"
    ≡ changed
check_foreign_signer-record_example =
    check_foreign_signer-record alice Signers.unusable "bob" "key" friends 2000 none "other" refl
      refl
