-- ===== src/Pins/Signers/FirstUse.antt =====
-- Which signer a check accepts: internal/e2ee/peer_signing_pin.go.
use pigcloud_cli.Common.{
  ℕ, ◌-◌, ◌<◌, String, List, Bool, true, false, ◌≡◌, refl, Option, none, some, arith, same,
  is_empty, lt→ltb, if◌then◌else◌, lookup-insert_self,
}
use pigcloud_cli.Pins.{Account}
use pigcloud_cli.Pins.Signers.{
  StoreFile, load_file, signing_pk_seen, record_signing_pk, Friends, has_friend, has_friend_edge,
  friend_set_ttl, accepted, record_pk, untrusted, changed, decide_seen, check_foreign_signer,
}

seen-record :
    (a : Account) (f : StoreFile) (peer ed : String)
    → a.has_path ≡ true
    → is_empty a.owner ≡ false
    → signing_pk_seen a true (record_signing_pk a true true f peer ed) peer ≡ some ed
unfolding signing_pk_seen record_signing_pk load_file
seen-record a f peer ed p o = rw (o, p) (rw (lookup-insert_self, lookup-insert_self) refl)

-- Once the key of a signer has been recorded for an account, in a store that is written, a check of
-- that signer accepts that key and refuses every other as changed, whatever the friend list is.
pub check_foreign_signer-record :
    (a : Account) (f : StoreFile) (peer ed : String) (s : Friends) (now : ℕ)
    (answer : Option (List String)) (ed' : String)
    → a.has_path ≡ true
    → is_empty a.owner ≡ false
    → check_foreign_signer a true (record_signing_pk a true true f peer ed) s now answer peer ed'
      ≡ (if same ed ed' then accepted else changed)
unfolding check_foreign_signer
check_foreign_signer-record a f peer ed s now answer ed' p o =
    rw (seen-record a f peer ed p o) (ground arith)

decide-unseen :
    (b : Bool) (s : Friends) (ed : String)
    → decide_seen none (b, s) ed ≡ (if b then record_pk else untrusted)
decide-unseen true s ed = refl
decide-unseen false s ed = refl

fresh_edge :
    (s : Friends) (now : ℕ) (set : List String) (answer : Option (List String)) (peer : String)
    → s.set ≡ some set
    → now - s.fetched_at < friend_set_ttl
    → has_friend_edge s now answer peer ≡ (has_friend (some set) peer, s)
unfolding has_friend_edge
fresh_edge s now set answer peer there fresh =
    rw (there, lt→ltb (now - s.fetched_at) friend_set_ttl fresh) refl

-- A signer with no record is to be recorded exactly if the name is valid and is in the friend list
-- that the check goes by; a fresh memo of it is gone by, whatever the server would answer.
check_foreign_signer-unseen :
    (a : Account) (f : StoreFile) (peer : String) (s : Friends) (now : ℕ) (set : List String)
    (answer : Option (List String)) (ed : String)
    → signing_pk_seen a true f peer ≡ none
    → s.set ≡ some set
    → now - s.fetched_at < friend_set_ttl
    → check_foreign_signer a true f s now answer peer ed
      ≡ (if has_friend (some set) peer then record_pk else untrusted)
unfolding check_foreign_signer
check_foreign_signer-unseen a f peer s now set answer ed unseen there fresh =
    let edge : has_friend_edge s now answer peer ≡ (has_friend (some set) peer, s) =
      fresh_edge s now set answer peer there fresh in
    rw (unseen, edge) (decide-unseen (has_friend (some set) peer) s ed)
