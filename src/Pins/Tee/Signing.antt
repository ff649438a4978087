-- ===== src/Pins/Tee/Signing.antt =====
-- The pinned signing key through the operations: first use, later checks, repin, forget.
use pigcloud_cli.Common.{
  ℕ, String, true, false, ◌||◌, ◌≡◌, ◌≢◌, ◌∙◌, Option, some, arith, is_empty, is_empty-false, ap,
  if◌then◌else◌, insert, lookup-insert_self,
}
use pigcloud_cli.Pins.{Account}
use pigcloud_cli.Pins.Tee.{
  Pin, Owners, StoreFile, decoded, signing_pk_changed, Result, ok, err, pin_version, load_file,
  pin_of, signing_record, same_pair, pinned, accepts,
}
use pigcloud_cli.Pins.Tee.Attestation.{Answer}
use pigcloud_cli.Pins.Tee.Moves.{
  Memos, Commit, nothing, check_record, check_signing_pks, record_signing_pk,
}
use pigcloud_cli.Pins.Tee.Repinned.{in_retired}

-- The account has an owner and a directory, and the store loads as `owners`.
pub record Usable (a : Account) (f : StoreFile) (owners : Owners) : Type 0 where
  pub path_there : a.has_path ≡ true
  pub owner_there : is_empty a.owner ≡ false
  pub loads : load_file a f ≡ ok owners

pub signing_record-insert :
    (a : Account) (owners : Owners) (r : Pin)
    → a.has_path ≡ true
    → is_empty a.owner ≡ false
    → signing_record a (decoded pin_version (some (insert a.owner r owners))) ≡ ok r
unfolding signing_record load_file
signing_record-insert a owners r p o = rw (p, o) (rw lookup-insert_self)

-- what a check answers under a given pin
abbrev pub verdict : Pin → String → String → Result Commit
verdict r ed ml = if accepts r ed ml then ok nothing else err signing_pk_changed

pub check_signing_pks-pinned :
    (a : Account) (f : StoreFile) (m : Memos) (now : ℕ) (answer : Option Answer) (ed ml : String)
    (r : Pin)
    → signing_record a f ≡ ok r
    → pinned r ≡ true
    → check_signing_pks a f m now answer ed ml ≡ (verdict r ed ml, m)
unfolding check_signing_pks check_record
check_signing_pks-pinned a f m now answer ed ml r e p = rw e (rw p)

-- Trust on first use: once a pair of nonempty keys has been recorded in a store that loads and is
-- written, a check accepts that pair and the retired pairs of the account, and refuses every other
-- pair, whatever the server answers to an attestation probe.
pub check-record_signing_pk :
    (a : Account) (f : StoreFile) (owners : Owners) (ed ml : String) (m : Memos) (now : ℕ)
    (answer : Option Answer) (ed' ml' : String)
    → Usable a f owners
    → ed ≢ ""
    → ml ≢ ""
    → check_signing_pks a (record_signing_pk a true f ed ml) m now answer ed' ml' ≡ (
      (if same_pair ed ml ed' ml' || in_retired ed' ml' (pin_of a.owner owners).retired
          then ok nothing
          else err signing_pk_changed),
      m,
    )
check-record_signing_pk a f owners ed ml m now answer ed' ml' u he hm = rw recorded (
    check_signing_pks-pinned a _ m now answer ed' ml' r
      (signing_record-insert a owners r u.path_there u.owner_there) both
    ∙ ap (λ c. (c, m)) accepted)
  where
    r : Pin
    r = record (pin_of a.owner owners) { ed = ed; ml = ml }

    recorded :
        record_signing_pk a true f ed ml ≡ decoded pin_version (some (insert a.owner r owners))
    recorded =
        unfold record_signing_pk in
        rw (u.loads, u.path_there, u.owner_there, is_empty-false ed he, is_empty-false ml hm)

    both : pinned r ≡ true
    both = unfold pinned in rw (is_empty-false ed he, is_empty-false ml hm)

    accepted : verdict r ed' ml' ≡ (
        if same_pair ed ml ed' ml' || in_retired ed' ml' r.retired
        then ok nothing
        else err signing_pk_changed)
    accepted = unfold accepts in rw both (ground arith)
