-- ===== src/Pins.antt =====
-- The key pins of internal/e2ee, one module for each store file, and what they take from
-- elsewhere: base64, SHA-256, signature checks and the JSON of a signature blob.
pub mod Codec
pub mod Tee
pub mod Peer
pub mod Own
pub mod Signers
use pigcloud_cli.Common.{ℕ, String, List, Bool, Option}

-- Where the pins are kept and whose they are: `owner` is signingPinOwner(), "" with no account;
-- `has_path` says that the CLI has a configuration directory.
pub record Account : Type 0 where
  pub owner : String
  pub has_path : Bool
