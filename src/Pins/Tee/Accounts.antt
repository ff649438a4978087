-- ===== src/Pins/Tee/Accounts.antt =====
-- The pinned posture through later attestations, and the pins of the other accounts.
use pigcloud_cli.Common.{
  String, [], Bool, true, false, not, ◌&&◌, ◌≡◌, refl, ◌⊎◌, ◌∙◌, ap, Option, none, some, arith,
  same, same_iff, is_empty, is_empty-false, if◌then◌else◌, insert, lookup-insert,
  lookup-insert_self,
}
use pigcloud_cli.Pins.{Account}
use pigcloud_cli.Pins.Codec.{Bytes, Codec}
use pigcloud_cli.Pins.Tee.{
  Posture, Pin, Owners, StoreFile, decoded, Result, ok, err, pin_version, load_file, pin_of,
  signing_record, write_file, already_pinned,
}
use pigcloud_cli.Pins.Tee.Attestation.{
  Served, wrong_length, posture_for, pinned_posture, compare_posture, check_posture,
  kyber_public_key_size,
}
use pigcloud_cli.Pins.Tee.Moves.{
  record_signing_pk, record_posture, forget_retired, Offer, repin_file,
}
use pigcloud_cli.Pins.Tee.Signing.{Usable}

-- What posture_for gives: a known mode, a measurement only under SGX, and a full ML-KEM key.
record IsOffer (p : Posture) : Type 0 where
  known : (p.mode ≡ "epid") ⊎ ((p.mode ≡ "none") × (p.mrenclave ≡ ""))
  kyber : is_empty p.sealing_pk_kyber ≡ false

posture_for-kyber :
    (c : Codec) (att : Served) (p : Posture)
    → posture_for c att ≡ ok p
    → wrong_length kyber_public_key_size (c.decode p.sealing_pk_kyber) ≡ false
unfolding posture_for
posture_for-kyber c att p h = ground arith

posture_for-IsOffer :
    (c : Codec) (att : Served) (p : Posture)
    → c.decode "" ≡ some []
    → posture_for c att ≡ ok p
    → IsOffer p
posture_for-IsOffer c att p d h = record {
  known = unfold posture_for in ground arith;
  kyber =
      is_empty-false p.sealing_pk_kyber (λ e.
        cc (ap (wrong_length kyber_public_key_size) d, rw e at (posture_for-kyber c att p h)));
}

compare_posture-same :
    (p q : Posture)
    → IsOffer p
    → IsOffer q
    → (cmt : Option Posture) → compare_posture (some p) q ≡ ok cmt
    → (q ≡ p) × (cmt ≡ none)
unfolding compare_posture
compare_posture-same p q hp hq cmt h = ground (
  arith,
  same_iff p.mode "epid",
  same_iff q.mode "epid",
  same_iff p.mode q.mode,
  same_iff q.mrenclave p.mrenclave,
  same_iff q.sealing_pk p.sealing_pk,
  same_iff q.sealing_pk_kyber p.sealing_pk_kyber,
)

check_posture-compares :
    (c : Codec) (a : Account) (f : StoreFile) (att : Served) (p : Posture) (cmt : Option Posture)
    → pinned_posture a f ≡ ok (some p)
    → check_posture c a f att ≡ ok cmt
    → (q : Posture) × (posture_for c att ≡ ok q) × (compare_posture (some p) q ≡ ok cmt)
unfolding check_posture
check_posture-compares c a f att p cmt e h = ground arith

pinned_posture-record_posture :
    (a : Account) (f : StoreFile) (owners : Owners) (p : Posture)
    → Usable a f owners
    → IsOffer p
    → pinned_posture a (record_posture a true f p) ≡ ok (some p)
pinned_posture-record_posture a f owners p u k = rw recorded (
    unfold pinned_posture load_file in
    rw (u.owner_there, u.path_there) (rw lookup-insert_self (rw known_mode)))
  where
    known_mode : (not (same p.mode "epid") && not (same p.mode "none")) ≡ false
    known_mode = ground (arith, k.known, same_iff p.mode "epid", same_iff p.mode "none")

    mode_there : is_empty p.mode ≡ false
    mode_there =
        is_empty-false p.mode (λ e. ground (arith, k.known, same_iff "epid" "", same_iff "none" ""))

    recorded :
        record_posture a true f p
        ≡ decoded pin_version
            (some (insert a.owner (record (pin_of a.owner owners) { posture = some p }) owners))
    recorded = unfold record_posture in rw (u.loads, u.path_there, u.owner_there, mode_there)

-- The posture of an attestation has been recorded in a store that loads and is written. Then a
-- later attestation passes the check only if it offers that very posture (mode, measurement and
-- both sealing keys), and nothing is recorded anew. Base64 decodes the empty text to no bytes.
pub check-record_posture :
    (c : Codec) (a : Account) (f : StoreFile) (owners : Owners) (first later : Served) (p : Posture)
    (cmt : Option Posture)
    → Usable a f owners
    → c.decode "" ≡ some []
    → posture_for c first ≡ ok p
    → check_posture c a (record_posture a true f p) later ≡ ok cmt
    → (posture_for c later ≡ ok p) × (cmt ≡ none)
check-record_posture c a f owners first later p cmt u d e h =
    let is_offer = posture_for-IsOffer c first p d e in
    let (q, offered, compared) =
      check_posture-compares c a _ later p cmt
        (pinned_posture-record_posture a f owners p u is_offer) h in
    let (e', none') =
      compare_posture-same p q is_offer (posture_for-IsOffer c later q d offered) cmt compared in
    (offered ∙ ap ok e', none')

-- The same configuration directory, used by the account of another owner.
abbrev pub another : Account → String → Account
another a owner = record a { owner = owner }

signing_record-write :
    (a : Account) (written : Bool) (f : StoreFile) (owners : Owners) (r : Pin) (other : String)
    → a.has_path ≡ true
    → load_file a f ≡ ok owners
    → same a.owner other ≡ false
    → signing_record (another a other) (write_file written f (insert a.owner r owners))
      ≡ signing_record (another a other) f
signing_record-write a false f owners r other p l ne = refl
signing_record-write a true f owners r other p l ne =
    unfold signing_record in rw (l', stored) (rw lookup-insert (rw ne))
  where
    l' : load_file (another a other) f ≡ ok owners
    l' = unfold load_file in l

    stored :
        load_file (another a other) (decoded pin_version (some (insert a.owner r owners)))
        ≡ ok (insert a.owner r owners)
    stored = unfold load_file in rw p

if-preserves {ℓ} :
    {A : Type ℓ} {B : Type 0} (g : A → B) (b : Bool) (x y : A) (z : B)
    → g x ≡ z
    → g y ≡ z
    → g (if b then x else y) ≡ z
if-preserves g true x y z hx hy = hx
if-preserves g false x y z hx hy = hy

-- In a store that loads, recording a key or a posture, forgetting a retired key and repinning
-- leave the record of every other owner as it was, whether or not the write succeeds.
other_owners_unchanged :
    (c : Codec) (a : Account) (written aside : Bool) (f : StoreFile) (owners : Owners)
    (other : String)
    → a.has_path ≡ true
    → load_file a f ≡ ok owners
    → same a.owner other ≡ false
    → let before = signing_record (another a other) f in
      ((ed ml : String)
        → signing_record (another a other) (record_signing_pk a written f ed ml) ≡ before)
      × ((p : Posture) → signing_record (another a other) (record_posture a written f p) ≡ before)
      × ((fp : Bytes)
          → signing_record (another a other) (forget_retired c a written f fp).0 ≡ before)
      × ((o : Offer) (at : String)
          → signing_record (another a other) (repin_file a aside written f o at).0 ≡ before)
other_owners_unchanged c a written aside f owners other p l ne = (
  λ ed ml. unfold record_signing_pk in rw l (if-preserves file _ f _ _ refl (inserted _)),
  λ q. unfold record_posture in rw l (if-preserves file _ f _ _ refl (inserted _)),
  λ fp.
      unfold forget_retired in
      rw l (
        if-preserves (λ (t : StoreFile × Bool). file t.0) _ (f, false) _ _ refl
          (if-preserves (λ (t : StoreFile × Bool). file t.0) _ (f, false) _ _ refl (inserted _))),
  λ o at.
      unfold repin_file in
      rw (l, repin_file)
        (if-preserves (λ (t : StoreFile × Result (Unit {0})). file t.0) _ (f, err already_pinned) _
          _ refl (inserted _)),
)
  where
    file : StoreFile → Result Pin
    file = signing_record (another a other)

    inserted : (r : Pin) → file (write_file written f (insert a.owner r owners)) ≡ file f
    inserted r = signing_record-write a written f owners r other p l ne
