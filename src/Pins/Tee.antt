-- ===== src/Pins/Tee.antt =====
-- The pins of the scanner's signing key and posture: internal/e2ee/tee_signing_pin.go.
pub mod Attestation
pub mod Moves
pub mod Signing
pub mod Checked
pub mod Repinned
pub mod Moved
pub mod Accounts
use pigcloud_cli.Common.{
  ℕ, ◌+◌, ◌-◌, String, List, [], ◌∷◌, ◌++◌, Bool, true, false, not, ◌&&◌, ◌||◌, Option, none, some,
  ltb, ◌==◌, same, is_empty, if◌then◌else◌, length, drop, keep, any, lookup, insert, get_or,
}
use pigcloud_cli.Pins.{Account}

pub record Retired : Type 0 where
  pub ed : String
  pub ml : String
  pub retired_at : String

pub record Posture : Type 0 where
  pub mode : String
  pub mrenclave : String
  pub sealing_pk : String
  pub sealing_pk_kyber : String

pub record Pin : Type 0 where
  pub ed : String
  pub ml : String
  pub posture : Option Posture
  pub retired : List Retired

-- Owners map[string]teeSigningPk
abbrev pub Owners : Type 0
Owners = List (String × Pin)

-- What os.ReadFile and json.Unmarshal make of the file: its version, and its owners or nil.
pub data StoreFile : Type 0 where
  missing : StoreFile
  unreadable : StoreFile
  decoded : ℕ → Option Owners → StoreFile

pub data Error : Type 0 where
  no_account no_offer wrong_size no_fingerprint store_unreadable aside_failed : Error
  already_pinned : Error
  signing_pk_changed unattested signing_pk_untrusted : Error
  untrusted unverified key_malformed : Error
  no_answer disabled unavailable absent_pk : Error
  downgraded mode_changed mrenclave_changed enclave_pk_changed : Error

pub data Result {ℓ} (A : Type ℓ) : Type ℓ where
  ok : A → Result A
  err : Error → Result A

infixl 5 ◌>>=◌
abbrev pub ◌>>=◌ {ℓ κ} : {A : Type ℓ} {B : Type κ} → Result A → (A → Result B) → Result B
ok a >>= f = f a
err e >>= f = err e

abbrev pub pin_version : ℕ
pin_version = 1

abbrev pub retired_limit : ℕ
retired_limit = 8

-- the zero teeSigningPk
abbrev pub no_pin : Pin
no_pin = record { ed = ""; ml = ""; posture = none; retired = [] }

read_file : StoreFile → Result Owners
read_file missing = ok []
read_file unreadable = err store_unreadable
read_file (decoded v owners) =
    if not (v == pin_version) then err store_unreadable else ok (get_or [] owners)

unfoldable pub load_file : Account → StoreFile → Result Owners
unfolding read_file
load_file a f = if not a.has_path then ok [] else read_file f

-- writeTeeSigningPkFile: its errors are dropped, so a failed write leaves the file
abbrev pub write_file : Bool → StoreFile → Owners → StoreFile
write_file written f owners = if written then decoded pin_version (some owners) else f

abbrev pub pin_of : String → Owners → Pin
pin_of owner owners = get_or no_pin (lookup owner owners)

-- teeSigningRecord
unfoldable pub signing_record : Account → StoreFile → Result Pin
signing_record a f =
    if is_empty a.owner then ok no_pin else do owners ← load_file a f; ok (pin_of a.owner owners)

abbrev pub same_pair : String → String → String → String → Bool
same_pair ed ml ed' ml' = same ed ed' && same ml ml'

unfoldable pub pinned : Pin → Bool
pinned r = not (is_empty r.ed) && not (is_empty r.ml)

unfoldable pub accepts : Pin → String → String → Bool
unfolding pinned
accepts r ed ml =
    if pinned r && same_pair r.ed r.ml ed ml
    then true
    else any (λ q. same_pair q.ed q.ml ed ml) r.retired

unfoldable pub drop_retired : List Retired → String → String → List Retired
drop_retired list ed ml = keep (λ q. not (same_pair q.ed q.ml ed ml)) list
