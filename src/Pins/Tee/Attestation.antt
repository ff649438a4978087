-- ===== src/Pins/Tee/Attestation.antt =====
-- What the server answers to the attestation probe, and the posture it offers.
use pigcloud_cli.Common.{
  ℕ, String, Bool, true, not, ◌&&◌, ◌||◌, Option, none, some, ◌==◌, same, is_empty, if◌then◌else◌,
  length, lookup,
}
use pigcloud_cli.Pins.{Account}
use pigcloud_cli.Pins.Codec.{Bytes, Codec}
use pigcloud_cli.Pins.Tee.{
  Posture, Pin, StoreFile, key_malformed, untrusted, unverified, downgraded, mode_changed,
  mrenclave_changed, enclave_pk_changed, store_unreadable, no_answer, disabled, unavailable,
  absent_pk, Result, ok, err, ◌>>=◌, load_file,
}

-- servedAttestation
pub record Served : Type 0 where
  pub mode : String
  pub mrenclave : String
  pub quote : String
  pub status : String
  pub sealing_pk : String
  pub sealing_pk_kyber : String

-- TeeAttestationResponse; `none` stands for a transport error or no response
pub record Answer : Type 0 where
  pub success : Bool
  pub enabled : Bool
  pub available : Bool
  pub served : Served
  pub signing_ed : String
  pub signing_ml : String

unfoldable pub sgx : Served → Bool
sgx a = same a.mode "epid" && not (is_empty a.mrenclave) && not (is_empty a.quote)

unfoldable pub answerable : Answer → Result (Unit {0})
answerable r =
    if not r.success
    then err no_answer
    else if not r.enabled
    then err disabled
    else if not r.available
    then err unavailable
    else if same r.served.status "untrusted"
    then err untrusted
    else if sgx r.served && not (same r.served.status "trusted")
    then err unverified
    else if is_empty r.signing_ed || is_empty r.signing_ml
    then err absent_pk
    else ok tt

-- err != nil || len(raw) != n
abbrev pub wrong_length : ℕ → Option Bytes → Bool
wrong_length n none = true
wrong_length n (some raw) = not (length raw == n)

abbrev pub kyber_public_key_size : ℕ
kyber_public_key_size = 1184

unfoldable pub posture_for : Codec → Served → Result Posture
posture_for c a =
    if wrong_length 32 (c.decode a.sealing_pk)
    then err key_malformed
    else if wrong_length kyber_public_key_size (c.decode a.sealing_pk_kyber)
    then err key_malformed
    else ok (record {
      mode = if sgx a then "epid" else "none";
      mrenclave = if sgx a then a.mrenclave else "";
      sealing_pk = a.sealing_pk;
      sealing_pk_kyber = a.sealing_pk_kyber;
    })

abbrev known_posture : Option Posture → Result (Option Posture)
known_posture none = ok none
known_posture (some p) =
    if not (same p.mode "epid") && not (same p.mode "none")
    then err store_unreadable
    else ok (some p)

abbrev posture_of : Option Pin → Option Posture
posture_of none = none
posture_of (some r) = r.posture

unfoldable pub pinned_posture : Account → StoreFile → Result (Option Posture)
pinned_posture a f =
    if is_empty a.owner
    then ok none
    else do owners ← load_file a f; known_posture (posture_of (lookup a.owner owners))

-- The function that checkTeeAttestationPosture returns: the posture to record, if any.
abbrev pub Commit : Type 0
Commit = Option Posture

-- the switch, once the stored posture is read
unfoldable pub compare_posture : Option Posture → Posture → Result Commit
compare_posture none offered = ok (some offered)
compare_posture (some p) offered =
    if same p.mode "epid" && not (same offered.mode "epid")
    then err downgraded
    else if not (same p.mode offered.mode)
    then err mode_changed
    else if same offered.mode "epid" && not (same offered.mrenclave p.mrenclave)
    then err mrenclave_changed
    else if not (same offered.sealing_pk p.sealing_pk)
    then err enclave_pk_changed
    else if is_empty p.sealing_pk_kyber
    then ok (some offered)
    else if not (same offered.sealing_pk_kyber p.sealing_pk_kyber)
    then err enclave_pk_changed
    else ok none

unfoldable pub check_posture : Codec → Account → StoreFile → Served → Result Commit
check_posture c a f att =
    if same att.status "untrusted"
    then err untrusted
    else if sgx att && not (same att.status "trusted")
    then err unverified
    else do offered ← posture_for c att; stored ← pinned_posture a f; compare_posture stored offered
