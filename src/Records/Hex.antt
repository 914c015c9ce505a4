-- ===== src/Records/Hex.antt =====
-- `_hexToBytes` of cli/store.js reads the digits that `toHex` writes.
use dacar.Common.{
  ℕ, ◌+◌, ◌*◌, ◌/◌, ◌%◌, ◌<◌, ◌≡◌, refl, false, ◌&&◌, ◌==◌, [], ◌∷◌, Bytes, some, All, arith, ok,
}
use dacar.Platform.{Platform, IsHexText, hex_digit}
use dacar.Records.{hex_value, byte_of, hex_pairs, hex_to_bytes}

abbrev pub IsByte : ℕ → Type 0
IsByte b = b < 256

hex_value-digit : (d : ℕ) → d < 16 → hex_value (hex_digit d) ≡ some d
unfolding hex_value
hex_value-digit d h = ground arith

-- No digit is the letter of the prefix.
not_x : (c d : ℕ) → d < 16 → (c == b'0' && hex_digit d == b'x') ≡ false
not_x c d h = ground arith

module _ (p : Platform) (hex : IsHexText p) where
  hex_pairs-to_hex : (bs : Bytes) → All IsByte bs → hex_pairs (p.to_hex bs) ≡ ok bs
  unfolding hex_pairs byte_of
  hex_pairs-to_hex [] h = rw hex.to_hex-nil refl
  hex_pairs-to_hex (b ∷ bs) h =
      let high : hex_value (hex_digit (b / 16)) ≡ some (b / 16) =
        hex_value-digit (b / 16) (omega (arith, h.0)) in
      let low : hex_value (hex_digit (b % 16)) ≡ some (b % 16) =
        hex_value-digit (b % 16) (omega arith) in
      let whole : b / 16 * 16 + b % 16 ≡ b = omega arith in
      rw (hex.to_hex-cons b bs) (rw (high, low, hex_pairs-to_hex bs h.1, whole) refl)

  -- The digits of a byte string are read back as the byte string.
  pub hex_to_bytes-to_hex : (bs : Bytes) → All IsByte bs → hex_to_bytes (p.to_hex bs) ≡ ok bs
  unfolding hex_to_bytes
  hex_to_bytes-to_hex [] h = rw hex.to_hex-nil (unfold hex_pairs in refl)
  hex_to_bytes-to_hex (b ∷ bs) h =
      let pairs = hex_pairs-to_hex (b ∷ bs) h in
      rw (hex.to_hex-cons b bs) (
        rw (not_x (hex_digit (b / 16)) (b % 16) (omega arith)) (rw (hex.to_hex-cons b bs) at pairs))
