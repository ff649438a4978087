-- ===== src/Tests.antt =====
-- Concrete inputs on which the theorems of the library are applied.
mod Replacing
mod TeePins
mod PeerPins
mod Tables
mod Sweeps
mod Waits
mod Texts
mod Contents
mod Vault
mod Visits
mod Batches
mod Polls
mod Folder
mod Downloads
mod Attempts
use pigcloud_cli.Common.{
  ℕ, zero, suc, String, List, [], ◌∷◌, Bool, true, Option, none, some, codes, ◌==◌, if◌then◌else◌,
}
use pigcloud_cli.Pins.{Account}
use pigcloud_cli.Pins.Codec.{Bytes, Codec}

abbrev pub repeat {ℓ} : {A : Type ℓ} → ℕ → A → List A
repeat zero x = []
repeat (suc n) x = x ∷ repeat n x

-- A text for the bytes: it tells nothing but whether there are any, and the first.
abbrev text_of : Bytes → String
text_of [] = ""
text_of (b ∷ bs) = if b == 7 then "seven" else "other"

-- Texts stand for their own bytes.
abbrev pub plain : Codec
plain = record {
  decode = λ s. some (codes s);
  encode = text_of;
  sha256 = λ b. b;
  mldsa_pk_size = 2;
}

abbrev pub alice : Account
alice = record { owner = "alice"; has_path = true }
