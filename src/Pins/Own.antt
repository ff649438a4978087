-- ===== src/Pins/Own.antt =====
-- The account's own signing keys: internal/e2ee/signing_pin.go.
pub mod History
use pigcloud_cli.Common.{
  ℕ, ◌-◌, String, List, [], ◌∷◌, ◌++◌, Bool, true, false, not, ◌&&◌, ◌||◌, Option, none, some, ltb,
  ◌==◌, same, is_empty, if◌then◌else◌, length, drop, any, lookup, insert, get_or, codes,
}
use pigcloud_cli.Pins.{Account}
use pigcloud_cli.Pins.Codec.{Bytes, Codec}
use pigcloud_cli.Pins.Peer.Bundle.{Verifier}

abbrev pub Owners : Type 0
Owners = List (String × List String)

-- The file as it decodes: version 2 with its owners, or the bare list of an older build.
pub data StoreFile : Type 0 where
  missing : StoreFile
  unusable : StoreFile
  decoded : ℕ → Option Owners → StoreFile
  legacy : List String → StoreFile

abbrev pub own_signing_pks_max : ℕ
own_signing_pks_max = 16

abbrev migrate : String → List String → Owners
migrate owner [] = []
migrate owner (k ∷ ks) = if is_empty owner then [] else (owner, k ∷ ks) ∷ []

read_file : String → StoreFile → Owners
read_file owner missing = []
read_file owner unusable = []
read_file owner (decoded v none) = []
read_file owner (decoded v (some owners)) = if v == 2 then owners else []
read_file owner (legacy keys) = migrate owner keys

-- loadSigningPkFile
unfoldable pub load_file : Account → StoreFile → Owners
unfolding read_file
load_file a f = if not a.has_path then [] else read_file a.owner f

-- loadSigningPkSet
unfoldable pub key_set : Account → StoreFile → List String
key_set a f = if is_empty a.owner then [] else get_or [] (lookup a.owner (load_file a f))

abbrev pub contains : List String → String → Bool
contains set k = any (λ j. same j k) set

-- the set with one key more, cut to the newest sixteen
unfoldable pub extend : List String → String → List String
extend set k =
    let set' = set ++ k ∷ [] in
    if ltb own_signing_pks_max (length set')
    then drop (length set' - own_signing_pks_max) set'
    else set'

-- rememberSigningEdPub; `key` is the base64 text of the key
unfoldable pub remember : Account → Bool → StoreFile → String → StoreFile
remember a written f key =
    if not a.has_path || is_empty a.owner
    then f
    else let owners = load_file a f in
      let set = get_or [] (lookup a.owner owners) in
      if contains set key
      then f
      else if written
      then decoded 2 (some (insert a.owner (extend set key) owners))
      else f

-- signingEdPubTrusted
unfoldable pub trusted : Account → StoreFile → String → Bool
trusted a f key = contains (key_set a f) key

-- signingPkHistoryBlob
pub record HistoryBlob : Type 0 where
  pub version : ℕ
  pub eds : List String
  pub sig_ed : String
  pub sig_ml : String

abbrev pub history_domain : Bytes
history_domain = codes "pigcloud-signing-pk-history-v1"

-- the loop over blob.Eds: the signed text and the decoded keys, or none at a key that is no base64
unfoldable pub decode_keys : Codec → List String → Bytes → List Bytes → Option (Bytes × List Bytes)
decode_keys c [] input keys = some (input, keys)
decode_keys c (ed ∷ eds) input keys = elim (c.decode ed) [
  | none ↦ none
  | some raw ↦ decode_keys c eds (input ++ raw) (keys ++ raw ∷ [])
]

-- what the checks behind the loop decide, once both signatures are decoded
unfoldable pub signed_by_own :
    Codec → Verifier → Bytes → Bytes → Bytes → Option Bytes → Option Bytes → Bool
signed_by_own c v own_ed own_ml input none sig_ml = false
signed_by_own c v own_ed own_ml input (some sig_ed) none = false
signed_by_own c v own_ed own_ml input (some sig_ed) (some sig_ml) =
    if not (length own_ed == 32)
    then false
    else if not (v.verify_ed own_ed input sig_ed)
    then false
    else if not (length own_ml == c.mldsa_pk_size)
    then false
    else if not (v.parse_ml own_ml)
    then false
    else v.verify_ml own_ml input sig_ml

-- verifySigningPkHistory; the blob is `none` where the JSON does not parse
unfoldable pub verify_history :
    Codec → Verifier → Option HistoryBlob → Bytes → Bytes → Option (List Bytes)
verify_history c v none own_ed own_ml = none
verify_history c v (some blob) own_ed own_ml =
    if not (blob.version == 1)
      || length blob.eds == 0
      || is_empty blob.sig_ed
      || is_empty blob.sig_ml
    then none
    else elim (decode_keys c blob.eds history_domain []) [
      | none ↦ none
      | some (input, keys) ↦
          if signed_by_own c v own_ed own_ml input (c.decode blob.sig_ed) (c.decode blob.sig_ml)
          then some keys
          else none
    ]

-- The loop of seedOwnSigningPkHistory over the verified keys.
unfoldable pub remember_all : Codec → Account → Bool → StoreFile → List Bytes → StoreFile
remember_all c a written f [] = f
remember_all c a written f (k ∷ ks) =
    remember_all c a written (remember a written f (c.encode k)) ks
