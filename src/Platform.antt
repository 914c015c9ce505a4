-- ===== src/Platform.antt =====
-- What the program takes from `@reticulum/core` and from the Web Crypto and encoding interfaces:
-- hexadecimal text, MessagePack, digests and Ed25519 identities. None of it is in the repository,
-- so the model takes it as an argument, and each law that a theorem needs as a hypothesis.
pub mod Coding
pub mod Sample
use dacar.Common.{
  ℕ, ◌+◌, ◌/◌, ◌%◌, ltb, if◌then◌else◌, [], ◌∷◌, Bool, true, Bytes, Text, Result, ok, ◌≡◌, length,
}
use dacar.Value.{Value}

pub record Platform : Type 1 where
  pub to_hex : Bytes → Text
  pub utf8 : Text → Bytes
  pub from_utf8 : Bytes → Text
  pub sha256 : Bytes → Bytes
  pub hmac_sha256 : Bytes → Bytes → Bytes
  pub encode : Value → Bytes
  pub decode : Bytes → Result Value
  pub Identity : Type 0
  pub from_public_key : Bytes → Result Identity
  pub public_key : Identity → Bytes
  pub identity_hash : Identity → Bytes
  pub sign : Identity → Bytes → Bytes
  pub validate : Identity → Bytes → Bytes → Bool

-- `toHex` writes two digits for each byte.
pub record IsHex (p : Platform) : Type 0 where
  pub to_hex-injective : (a b : Bytes) → p.to_hex a ≡ p.to_hex b → a ≡ b

abbrev pub hex_digit : ℕ → ℕ
hex_digit d = if ltb d 10 then 48 + d else 87 + d

-- The two digits are lower-case and the high one comes first.
pub record IsHexText (p : Platform) : Type 0 where
  pub to_hex-nil : p.to_hex [] ≡ []
  pub to_hex-cons :
      (b : ℕ) (bs : Bytes)
      → p.to_hex (b ∷ bs) ≡ hex_digit (b / 16) ∷ hex_digit (b % 16) ∷ p.to_hex bs

-- A digest of SHA-256 has 32 bytes.
pub record IsDigest (p : Platform) : Type 0 where
  pub length-sha256 : (m : Bytes) → length (p.sha256 m) ≡ 32
  pub length-hmac_sha256 : (k m : Bytes) → length (p.hmac_sha256 k m) ≡ 32

-- `decode` reads back what `encode` wrote. MessagePack has no integers above 64 bits: the times and
-- counts that the code encodes are below.
pub record IsPacking (p : Platform) : Type 0 where
  pub decode-encode : (v : Value) → p.decode (p.encode v) ≡ ok v

-- A signature of an identity has 64 bytes and validates under it. The identity that is made of a
-- public key stands for the one that signs with its private key.
pub record IsSigning (p : Platform) : Type 0 where
  pub length-sign : (i : p.Identity) (m : Bytes) → length (p.sign i m) ≡ 64
  pub validate-sign : (i : p.Identity) (m : Bytes) → p.validate i (p.sign i m) m ≡ true
  pub from-public_key : (i : p.Identity) → p.from_public_key (p.public_key i) ≡ ok i
