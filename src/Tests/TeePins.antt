-- ===== src/Tests/TeePins.antt =====
-- The pins of the scanner's keys on a small store.
use pigcloud_cli.Common.{
  String, [], ◌∷◌, true, false, ◌≡◌, refl, Option, none, some, arith, codes, same, lookup, insert,
}
use pigcloud_cli.Pins.Codec.{Codec, key_fingerprint, equal, display, join_spaces, groups, hex}
use pigcloud_cli.Pins.Tee.{
  Posture, Pin, Owners, StoreFile, missing, decoded, ok, err, signing_pk_changed, load_file,
  signing_record, pinned,
}
use pigcloud_cli.Pins.Tee.Attestation.{
  Served, Answer, answerable, posture_for, pinned_posture, compare_posture, sgx, check_posture,
}
use pigcloud_cli.Pins.Tee.Moves.{
  Memos, nothing, record_pair, attested_signing_pk, fetch_signing_pk, attested_is, check_record,
  validate_pair, check_signing_pks, record_signing_pk, record_posture, repin_file, Offer, repin,
  forget_memos,
}
use pigcloud_cli.Pins.Tee.Signing.{Usable, check-record_signing_pk}
use pigcloud_cli.Pins.Tee.Checked.{Allowed, check_signing_pks-Allowed}
use pigcloud_cli.Pins.Tee.Moved.{check-repin}
use pigcloud_cli.Pins.Tee.Accounts.{check-record_posture}
use pigcloud_cli.Tests.{repeat, plain, alice}

abbrev enclave : Posture
enclave = record { mode = "none"; mrenclave = ""; sealing_pk = "x"; sealing_pk_kyber = "k" }

abbrev alice_pin : Pin
alice_pin = record {
  ed = "ed1";
  ml = "m1";
  posture = none;
  retired = record { ed = "ed0"; ml = "m0"; retired_at = "2026" } ∷ [];
}

abbrev stored : Owners
stored = ("alice", alice_pin) ∷ ("bob", alice_pin) ∷ []

abbrev store : StoreFile
store = decoded 1 (some stored)

abbrev rested : Memos
rested = record {
  attested = none;
  next_try = 0;
  key_set = none;
  refused = false;
  epoch = 0;
  fetching = false;
}

abbrev thirty_two : String
thirty_two = "0123456789abcdef0123456789abcdef"

abbrev offer : Offer
offer = record { ed = thirty_two; ml = "m2"; posture = enclave }

usable : Usable alice store stored
usable = record { path_there = refl; owner_there = refl; loads = unfold load_file in refl }

Usable-none : Usable alice missing []
Usable-none = record { path_there = refl; owner_there = refl; loads = unfold load_file in refl }

-- Nothing is pinned, and the server vouches for the pair.
abbrev vouching : Answer
vouching = record {
  success = true;
  enabled = true;
  available = true;
  served = record {
    mode = "epid";
    mrenclave = "e";
    quote = "q";
    status = "trusted";
    sealing_pk = "x";
    sealing_pk_kyber = "k";
  };
  signing_ed = "ed5";
  signing_ml = "m5";
}

check_signing_pks-Allowed_example :
    Allowed rested 5 (some vouching) "ed5" "m5" record_pair (signing_record alice missing)
unfolding check_signing_pks signing_record load_file pinned lookup check_record attested_signing_pk
    fetch_signing_pk answerable sgx attested_is
check_signing_pks-Allowed_example =
    check_signing_pks-Allowed alice missing rested 5 (some vouching) "ed5" "m5" {cmt = record_pair}
      refl

check-record_signing_pk_example :
    check_signing_pks alice
      (record_signing_pk alice true missing "ed1" "m1")
      rested
      9
      none
      "ed2"
      "m1"
    ≡ (err signing_pk_changed, rested)
unfolding lookup
check-record_signing_pk_example =
    check-record_signing_pk alice missing [] "ed1" "m1" rested 9 none "ed2" "m1" Usable-none
      (λ e. absurd cc) (λ e. absurd cc)

check-repin_example :
    let (f', m', _) = repin plain alice true true store rested (some offer) "now" in
    (check_signing_pks alice f' rested 7 none thirty_two "m2" ≡ (ok nothing, rested))
    × (check_signing_pks alice f' rested 7 none "ed1" "m1" ≡ (ok nothing, rested))
    × (m' ≡ forget_memos rested)
unfolding lookup equal key_fingerprint display join_spaces groups hex
check-repin_example =
    check-repin plain alice store stored true rested offer "now" rested 7 none usable refl
      (omega arith) (unfold pinned in refl) refl (omega arith)
      (unfold repin repin_file load_file validate_pair in refl)

abbrev kyber_text : Codec
kyber_text = record plain {
  decode = λ s. elim (same s "kyber") [ true ↦ some (repeat 1184 1) | false ↦ some (codes s) ];
}

abbrev served : Served
served = record {
  mode = "none";
  mrenclave = "";
  quote = "";
  status = "trusted";
  sealing_pk = thirty_two;
  sealing_pk_kyber = "kyber";
}

abbrev posture : Posture
posture = record {
  mode = "none";
  mrenclave = "";
  sealing_pk = thirty_two;
  sealing_pk_kyber = "kyber";
}

abbrev no_change : Option Posture
no_change = none

check-record_posture_example : (posture_for kyber_text served ≡ ok posture) × (no_change ≡ none)
unfolding sgx lookup insert
check-record_posture_example =
    check-record_posture kyber_text alice store stored served served posture no_change usable refl
      (unfold posture_for in refl)
      (unfold check_posture record_posture load_file posture_for pinned_posture compare_posture
          sgx in
        refl)
