-- ===== src/Pins/Signers.antt =====
-- The pins of the keys that others sign the account's files with:
-- internal/e2ee/peer_signing_pin.go.
pub mod FirstUse
use pigcloud_cli.Common.{
  ℕ, ◌+◌, ◌-◌, String, List, [], ◌∷◌, Bool, true, false, not, ◌&&◌, ◌||◌, Option, none, some, ltb,
  ◌==◌, same, is_empty, if◌then◌else◌, any, keep, lookup, insert, get_or,
}
use pigcloud_cli.Pins.{Account}

abbrev pub Owners : Type 0
Owners = List (String × List (String × String))

-- the file as it decodes; `unusable` where it cannot be read or is no such JSON
pub data StoreFile : Type 0 where
  unusable : StoreFile
  decoded : ℕ → Option Owners → StoreFile

abbrev pub peer_signing_pin_version : ℕ
peer_signing_pin_version = 1

abbrev pub read_owners : StoreFile → Owners
read_owners unusable = []
read_owners (decoded v none) = []
read_owners (decoded v (some owners)) = if not (v == peer_signing_pin_version) then [] else owners

-- loadPeerSigningPkFile
unfoldable pub load_file : Account → StoreFile → Owners
load_file a f = if not a.has_path then [] else read_owners f

abbrev pub in_bucket : String → Option (List (String × String)) → Option String
in_bucket peer none = none
in_bucket peer (some bucket) = lookup peer bucket

-- peerSigningPkSeen; `valid` is validPeerName(peer)
unfoldable pub signing_pk_seen : Account → Bool → StoreFile → String → Option String
signing_pk_seen a valid f peer =
    if is_empty a.owner || not valid then none else in_bucket peer (lookup a.owner (load_file a f))

-- recordPeerSigningPk; a write that fails leaves the file
unfoldable pub record_signing_pk : Account → Bool → Bool → StoreFile → String → String → StoreFile
record_signing_pk a valid stored f peer ed =
    if not a.has_path || is_empty a.owner || not valid
    then f
    else if stored
    then decoded peer_signing_pin_version (
        some (
          insert a.owner (insert peer ed (get_or [] (lookup a.owner (load_file a f))))
            (load_file a f)))
    else f

-- the memo of the friend list, times in nanoseconds; 0 is the zero time
pub record Friends : Type 0 where
  pub set : Option (List String)
  pub fetched_at : ℕ
  pub next_try : ℕ

abbrev pub friend_set_retry_after : ℕ
friend_set_retry_after = 60000000000

abbrev pub friend_set_ttl : ℕ
friend_set_ttl = 300000000000

abbrev pub has_friend : Option (List String) → String → Bool
has_friend none peer = false
has_friend (some set) peer = any (λ f. same f peer) set

abbrev after_answer : Friends → ℕ → Option (List String) → String → Bool × Friends
after_answer s now none peer = (has_friend s.set peer, s)
after_answer s now (some names) peer =
    let set = some (keep (λ f. not (is_empty f)) names) in
    (has_friend set peer, record s { set = set; fetched_at = now })

abbrev pub is_fresh : Friends → ℕ → Bool
is_fresh s now = elim s.set [ none ↦ false | some _ ↦ ltb (now - s.fetched_at) friend_set_ttl ]

-- peerHasFriendEdge at time `now`, where a request for the list would be answered by `answer`
unfoldable pub has_friend_edge : Friends → ℕ → Option (List String) → String → Bool × Friends
has_friend_edge s now answer peer =
    if is_fresh s now
    then (has_friend s.set peer, s)
    else if ltb now s.next_try
    then (has_friend s.set peer, s)
    else after_answer (record s { next_try = now + friend_set_retry_after }) now answer peer

-- What checkForeignSignerOnOwnNode returns to be run later, or its refusal.
pub data Verdict : Type 0 where
  accepted record_pk untrusted changed : Verdict

abbrev pub decide_seen : Option String → Bool × Friends → String → Verdict
decide_seen none (false, s) ed = untrusted
decide_seen none (true, s) ed = record_pk
decide_seen (some seen) edge ed = if not (same seen ed) then changed else accepted

-- checkForeignSignerOnOwnNode; `ed` is the base64 text of the served key. A recorded signer asks
-- for no friend list.
unfoldable pub check_foreign_signer :
    Account → Bool → StoreFile → Friends → ℕ → Option (List String) → String → String → Verdict
check_foreign_signer a valid f s now answer peer ed =
    if not valid
    then untrusted
    else decide_seen (signing_pk_seen a valid f peer) (has_friend_edge s now answer peer) ed
