-- ===== src/Pins/Tee/Moved.antt =====
-- Later checks after a repin and after a retired pair is forgotten.
use pigcloud_cli.Common.{
  ℕ, ◌≤◌, ◌<◌, String, List, [], ◌∷◌, Bool, true, false, not, ◌&&◌, ◌||◌, ◌≡◌, refl, ◌≢◌, inl, inr,
  ◌∙◌, ap, Option, some, arith, ◌==◌, same_iff, ==_iff, is_empty-false, if◌then◌else◌, length, keep,
  insert, keep_full, Bool-cases,
}
use pigcloud_cli.Pins.{Account}
use pigcloud_cli.Pins.Codec.{Bytes, Codec, key_fingerprint, equal}
use pigcloud_cli.Pins.Tee.{
  Retired, Pin, Owners, StoreFile, decoded, signing_pk_changed, ok, err, retired_limit, pin_version,
  pin_of, signing_record, same_pair, pinned, accepts,
}
use pigcloud_cli.Pins.Tee.Attestation.{Answer}
use pigcloud_cli.Pins.Tee.Moves.{
  Memos, nothing, check_signing_pks, validate_pair, forget_retired, Offer, moved_pin, repin_file,
  repin, forget_memos,
}
use pigcloud_cli.Pins.Tee.Repinned.{in_retired, moved_pin-accepts}
use pigcloud_cli.Pins.Tee.Signing.{Usable, verdict, signing_record-insert, check_signing_pks-pinned}

module _ (c : Codec) (a : Account) (f : StoreFile) (owners : Owners) (u : Usable a f owners) where
  abbrev current : Pin
  current = pin_of a.owner owners

  abbrev moved_file : Offer → String → StoreFile
  moved_file o at = decoded pin_version (some (insert a.owner (moved_pin current o at) owners))

  repin-ok :
      (aside : Bool) (m : Memos) (o : Offer) (at : String)
      → (repin c a aside true f m (some o) at).2 ≡ ok tt
      → (validate_pair c o.ed o.ml ≡ ok tt)
        × ((repin c a aside true f m (some o) at).0 ≡ moved_file o at)
        × ((repin c a aside true f m (some o) at).1 ≡ forget_memos m)
  unfolding repin repin_file
  repin-ok aside m o at h = ground (arith, u.loads, u.path_there, u.owner_there)

-- Keys that decode to the right sizes are no empty texts.
validate_pair-nonempty :
    (c : Codec) (ed ml : String)
    → c.decode "" ≡ some []
    → 0 < c.mldsa_pk_size
    → validate_pair c ed ml ≡ ok tt
    → (ed ≢ "") × (ml ≢ "")
unfolding validate_pair
validate_pair-nonempty c ed ml d pos h = (λ e. no_ed (rw e at h), λ e. no_ml (rw e at h))
  where
    no_ed : validate_pair c "" ml ≢ ok tt
    no_ed h = ground (arith, d)

    no_ml : validate_pair c ed "" ≢ ok tt
    no_ml h = ground (arith, d)

moved_pin-pinned :
    (r : Pin) (o : Offer) (at : String) → o.ed ≢ "" → o.ml ≢ "" → pinned (moved_pin r o at) ≡ true
unfolding pinned moved_pin
moved_pin-pinned r o at he hm =
    ground (
      arith,
      is_empty-false o.ed he,
      is_empty-false o.ml hm,
      same_iff r.ed o.ed,
      same_iff r.ml o.ml,
    )

-- A repin that succeeds in a store that loads and is written: whatever the server answers later,
-- a check accepts the offered pair and the pair that was pinned before; the session forgets what it
-- remembered of attestations. The account has a pinned pair that is not among its at most eight
-- retired ones, base64 decodes the empty text to no bytes, and ML-DSA keys have some.
pub check-repin :
    (c : Codec) (a : Account) (f : StoreFile) (owners : Owners) (aside : Bool) (m : Memos)
    (o : Offer) (at : String) (later : Memos) (now : ℕ) (answer : Option Answer)
    → Usable a f owners
    → c.decode "" ≡ some []
    → 0 < c.mldsa_pk_size
    → pinned (pin_of a.owner owners) ≡ true
    → in_retired
        (pin_of a.owner owners).ed
        (pin_of a.owner owners).ml
        (pin_of a.owner owners).retired
      ≡ false
    → length (pin_of a.owner owners).retired ≤ retired_limit
    → (repin c a aside true f m (some o) at).2 ≡ ok tt
    → let (f', m', _) = repin c a aside true f m (some o) at in
      (check_signing_pks a f' later now answer o.ed o.ml ≡ (ok nothing, later))
      × (check_signing_pks a f' later now answer
            (pin_of a.owner owners).ed
            (pin_of a.owner owners).ml
          ≡ (ok nothing, later))
      × (m' ≡ forget_memos m)
check-repin c a f owners aside m o at later now answer u d pos p fresh bound h =
    let (valid, file, memos) = repin-ok c a f owners u aside m o at h in
    let (he, hm) = validate_pair-nonempty c o.ed o.ml d pos valid in
    let (new, _, old, _) = moved_pin-accepts (pin_of a.owner owners) o at he hm p fresh bound in
    let checks = λ (ed ml : String).
      check_signing_pks-pinned a (moved_file c a f owners u o at) later now answer ed ml _
        (signing_record-insert a owners _ u.path_there u.owner_there)
        (moved_pin-pinned (pin_of a.owner owners) o at he hm) in
    (rw file (checks o.ed o.ml ∙ rw new), rw file (checks _ _ ∙ rw old), memos)

module _ (c : Codec) (fp : Bytes) where
  abbrev spared : Retired → Bool
  spared q = not (equal (key_fingerprint c q.ed q.ml) fp)

  in_retired-spared :
      (l : List Retired) (ed ml : String)
      → in_retired ed ml (keep spared l)
        ≡ (in_retired ed ml l && not (equal (key_fingerprint c ed ml) fp))
  in_retired-spared [] ed ml = refl
  in_retired-spared (q ∷ l) ed ml =
      ground (arith, same_iff q.ed ed, same_iff q.ml ml, in_retired-spared l ed ml)

-- the account's pin without the retired pairs of this fingerprint
abbrev forgotten : Codec → Bytes → Pin → Pin
forgotten c fp r = record r { retired = keep (spared c fp) r.retired }

signing_record-forget_retired :
    (c : Codec) (a : Account) (f : StoreFile) (owners : Owners) (fp : Bytes)
    → Usable a f owners
    → equal fp [] ≡ false
    → signing_record a (forget_retired c a true f fp).0
      ≡ ok (forgotten c fp (pin_of a.owner owners))
signing_record-forget_retired c a f owners fp u ne =
    elim (Bool-cases (length (keep (spared c fp) r.retired) == length r.retired)) [
      | inl full ↦
          rw (opened, full)
            (unfold signing_record in
              rw (u.owner_there, u.loads)
                (rw (keep_full (spared c fp) r.retired ((==_iff _ _).0 full))))
      | inr less ↦ rw (opened, less) (signing_record-insert a owners _ u.path_there u.owner_there)
    ]
  where
    r : Pin
    r = pin_of a.owner owners

    opened : (forget_retired c a true f fp).0 ≡ (
        if length (keep (spared c fp) r.retired) == length r.retired
        then f
        else decoded pin_version (some (insert a.owner (forgotten c fp r) owners)))
    opened = unfold forget_retired in rw (u.loads, u.path_there, u.owner_there, ne) (ground arith)

-- Forgetting a fingerprint in a store that loads and is written, for an account with a pinned pair:
-- a later check accepts the pinned pair, and those retired pairs whose fingerprint is another one;
-- it refuses every other pair, whatever the server answers.
check-forget_retired :
    (c : Codec) (a : Account) (f : StoreFile) (owners : Owners) (fp : Bytes) (later : Memos)
    (now : ℕ) (answer : Option Answer) (ed ml : String)
    → Usable a f owners
    → equal fp [] ≡ false
    → pinned (pin_of a.owner owners) ≡ true
    → let r = pin_of a.owner owners in
      check_signing_pks a (forget_retired c a true f fp).0 later now answer ed ml ≡ (
        (if same_pair r.ed r.ml ed ml
              || in_retired ed ml r.retired && not (equal (key_fingerprint c ed ml) fp)
            then ok nothing
            else err signing_pk_changed),
        later,
      )
check-forget_retired c a f owners fp later now answer ed ml u ne p =
    check_signing_pks-pinned a _ later now answer ed ml _
      (signing_record-forget_retired c a f owners fp u ne) p'
    ∙ ap (λ v. (v, later)) accepted
  where
    p' : pinned (forgotten c fp (pin_of a.owner owners)) ≡ true
    p' = unfold pinned in p

    accepted : verdict (forgotten c fp (pin_of a.owner owners)) ed ml ≡ (
        if same_pair (pin_of a.owner owners).ed (pin_of a.owner owners).ml ed ml
          || in_retired ed ml (pin_of a.owner owners).retired
            && not (equal (key_fingerprint c ed ml) fp)
        then ok nothing
        else err signing_pk_changed)
    accepted =
        unfold accepts in
        rw (p', in_retired-spared c fp (pin_of a.owner owners).retired ed ml) (ground arith)
