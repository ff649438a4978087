-- ===== src/Formats.antt =====
-- The byte formats of internal/crypto that hide or carry plaintext.
pub mod Names
pub mod Frames
