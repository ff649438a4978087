-- ===== src/Pins/Tee/Moves.antt =====
-- The operations that read and move a pin: check, record, repin, forget.
use pigcloud_cli.Common.{
  ℕ, ◌+◌, ◌-◌, String, List, [], ◌∷◌, ◌++◌, Bool, true, false, not, ◌&&◌, ◌||◌, Option, none, some,
  ltb, ◌==◌, same, is_empty, if◌then◌else◌, length, drop, keep, insert,
}
use pigcloud_cli.Pins.{Account}
use pigcloud_cli.Pins.Codec.{Bytes, Codec, key_fingerprint, equal}
use pigcloud_cli.Pins.Tee.{
  Retired, Posture, Pin, Owners, StoreFile, missing, no_account, no_offer, wrong_size,
  no_fingerprint, aside_failed, already_pinned, signing_pk_changed, unattested,
  signing_pk_untrusted, no_answer, Result, ok, err, ◌>>=◌, retired_limit, load_file, write_file,
  pin_of, signing_record, same_pair, pinned, accepts, drop_retired,
}
use pigcloud_cli.Pins.Tee.Attestation.{Answer, answerable, wrong_length, posture_for}

-- The memo of the attested key, and the session's memo of the enclave's sealing keys.
pub record Memos : Type 0 where
  pub attested : Option (String × String)
  pub next_try : ℕ  -- nanoseconds; 0 is the zero time
  pub key_set : Option (String × String)
  pub refused : Bool
  pub epoch : ℕ
  pub fetching : Bool

abbrev pub attestation_throttle : ℕ
attestation_throttle = 60000000000

unfoldable pub forget_memos : Memos → Memos
forget_memos m = record m {
  attested = none;
  next_try = 0;
  key_set = none;
  refused = false;
  epoch = m.epoch + 1;
  fetching = false;
}

-- fetchTeeSigningPk; `none` is a failed request
unfoldable pub fetch_signing_pk : Option Answer → Result (String × String)
fetch_signing_pk none = err no_answer
fetch_signing_pk (some r) = answerable r >>= λ _. ok (r.signing_ed, r.signing_ml)

-- attestedTeeSigningPk, at time `now`, where a request would be answered by `answer`
unfoldable pub attested_signing_pk : Memos → ℕ → Option Answer → Option (String × String) × Memos
attested_signing_pk m now answer = elim m.attested [
  | some pk ↦ (some pk, m)
  | none ↦ if ltb now m.next_try then (none, m) else elim (fetch_signing_pk answer) [
    | ok pk ↦ (some pk, record m { attested = some pk; next_try = now + attestation_throttle })
    | err e ↦ (none, record m { next_try = now + attestation_throttle })
  ]
]

-- What checkTeeSigningPks returns to be run later.
pub data Commit : Type 0 where
  nothing record_pair : Commit

unfoldable pub attested_is : String → String → Option (String × String) → Result Commit
attested_is ed ml none = err unattested
attested_is ed ml (some (ed', ml')) =
    if not (same ed' ed) || not (same ml' ml) then err signing_pk_untrusted else ok record_pair

-- once the account's record is read
unfoldable pub check_record :
    Result Pin → Memos → ℕ → Option Answer → String → String → Result Commit × Memos
check_record (err e) m now answer ed ml = (err e, m)
check_record (ok r) m now answer ed ml =
    if pinned r
    then (if accepts r ed ml then ok nothing else err signing_pk_changed, m)
    else let (pk, m') = attested_signing_pk m now answer in (attested_is ed ml pk, m')

unfoldable pub check_signing_pks :
    Account → StoreFile → Memos → ℕ → Option Answer → String → String → Result Commit × Memos
unfolding check_record
check_signing_pks a f = check_record (signing_record a f)

-- recordTeeSigningPk
unfoldable pub record_signing_pk : Account → Bool → StoreFile → String → String → StoreFile
record_signing_pk a written f ed ml =
    if not a.has_path || is_empty a.owner || is_empty ed || is_empty ml
    then f
    else elim (load_file a f) [
      | err e ↦ f
      | ok owners ↦
          write_file written f
            (insert a.owner (record (pin_of a.owner owners) { ed = ed; ml = ml }) owners)
    ]

-- recordTeeAttestationPosture
unfoldable pub record_posture : Account → Bool → StoreFile → Posture → StoreFile
record_posture a written f p =
    if not a.has_path || is_empty a.owner || is_empty p.mode then f else elim (load_file a f) [
      | err e ↦ f
      | ok owners ↦
          write_file written f
            (insert a.owner (record (pin_of a.owner owners) { posture = some p }) owners)
    ]

-- ForgetRetiredTeeSigningPk
unfoldable pub forget_retired : Codec → Account → Bool → StoreFile → Bytes → StoreFile × Bool
forget_retired c a written f fp =
    if not a.has_path || is_empty a.owner || equal fp [] then (f, false) else elim (load_file a f) [
      | err e ↦ (f, false)
      | ok owners ↦
          let r = pin_of a.owner owners in
          let kept = keep (λ q. not (equal (key_fingerprint c q.ed q.ml) fp)) r.retired in
          if length kept == length r.retired
          then (f, false)
          else (write_file written f (insert a.owner (record r { retired = kept }) owners), true)
    ]

-- TeeAttestationOffer
pub record Offer : Type 0 where
  pub ed : String
  pub ml : String
  pub posture : Posture

unfoldable pub validate_pair : Codec → String → String → Result (Unit {0})
validate_pair c ed ml =
    if wrong_length 32 (c.decode ed)
    then err wrong_size
    else if wrong_length c.mldsa_pk_size (c.decode ml)
    then err wrong_size
    else ok tt

-- OfferedTeeSigningPk
unfoldable pub offered_signing_pk : Codec → Option Answer → Result Offer
offered_signing_pk c none = err no_answer
offered_signing_pk c (some r) = answerable r >>= λ _.
    validate_pair c r.signing_ed r.signing_ml >>= λ _. posture_for c r.served >>= λ p.
    ok (record { ed = r.signing_ed; ml = r.signing_ml; posture = p })

abbrev same_posture : Option Posture → Posture → Bool
same_posture none q = false
same_posture (some p) q =
    same p.mode q.mode
    && same p.mrenclave q.mrenclave
    && same p.sealing_pk q.sealing_pk
    && same p.sealing_pk_kyber q.sealing_pk_kyber

unfoldable pub limit_retired : List Retired → List Retired
limit_retired l = if ltb retired_limit (length l) then drop (length l - retired_limit) l else l

abbrev pub superseded : Pin → String → Retired
superseded r at = record { ed = r.ed; ml = r.ml; retired_at = at }

-- the retired list once the pair of `r` gives way to the offered one
unfoldable pub retire : Pin → String → String → String → List Retired
retire r ed ml at =
    let with_old =
      if not (is_empty r.ed) && not (is_empty r.ml)
      then drop_retired r.retired r.ed r.ml ++ superseded r at ∷ []
      else r.retired in
    limit_retired (drop_retired with_old ed ml)

unfoldable pub moved_pin : Pin → Offer → String → Pin
moved_pin r o at =
    let r' =
      if same_pair r.ed r.ml o.ed o.ml
      then r
      else record r { retired = retire r o.ed o.ml at; ed = o.ed; ml = o.ml } in
    record r' { posture = some o.posture }

repin_owners : Account → Bool → StoreFile → Owners → Offer → String → StoreFile × Result (Unit {0})
repin_owners a written f owners o at =
    let r = pin_of a.owner owners in
    if same_pair r.ed r.ml o.ed o.ml && same_posture r.posture o.posture
    then (f, err already_pinned)
    else (write_file written f (insert a.owner (moved_pin r o at) owners), ok tt)

-- the part under teeSigningFileMu; an unusable store is first set aside
unfoldable pub repin_file :
    Account → Bool → Bool → StoreFile → Offer → String → StoreFile × Result (Unit {0})
unfolding repin_owners
repin_file a aside written f o at = elim (load_file a f) [
  | ok owners ↦ repin_owners a written f owners o at
  | err e ↦ if aside then repin_owners a written missing [] o at else (f, err aside_failed)
]

check_offer : Codec → Account → Option Offer → Result Offer
check_offer c a o = if not a.has_path || is_empty a.owner then err no_account else elim o [
  | none ↦ err no_offer
  | some q ↦ validate_pair c q.ed q.ml >>= λ _.
      if equal (key_fingerprint c q.ed q.ml) [] then err no_fingerprint else ok q
]

-- RepinTeeSigningPk
unfoldable pub repin :
    Codec
    → Account
    → Bool
    → Bool
    → StoreFile
    → Memos
    → Option Offer
    → String
    → StoreFile × Memos × Result (Unit {0})
unfolding check_offer
repin c a aside written f m o at = elim (check_offer c a o) [
  | err e ↦ (f, m, err e)
  | ok q ↦
      let (f', result) = repin_file a aside written f q at in
      (f', elim result [ ok _ ↦ forget_memos m | err _ ↦ m ], result)
]
