-- ===== src/Inputs/Payloads.antt =====
-- The hexadecimal text that cli/dacar.js prints for a payload is read back as the payload.
use mathlib.Core.List.{reverse, reverse-append, reverse-reverse, reverse_aux}
use dacar.Common.{
  ℕ, ◌*◌, ◌/◌, ◌%◌, ◌≤◌, ◌<◌, ◌≡◌, ◌≢◌, refl, ap, ◌∙◌, true, false, not, ◌||◌, ◌==◌, [], ◌∷◌, ◌++◌,
  Bytes, Text, length, length-append, All, arith, ok,
}
use dacar.Platform.{Platform, IsHexText, hex_digit}
use dacar.Value.BigInt.{trim, trim_start, is_space}
use dacar.Records.Hex.{IsByte}
use dacar.Records.Hex
use dacar.Inputs.{hex_to_bytes, is_hex_digit, all_hex, ascii, is_even, coerce_payload}

-- A digit in hexadecimal text.
abbrev Digit : ℕ → Type 0
Digit c = is_hex_digit c ≡ true

hex_digit-Digit : (d : ℕ) → d < 16 → Digit (hex_digit d)
unfolding is_hex_digit
hex_digit-Digit d h = ground arith

Digit-visible : (c : ℕ) → Digit c → is_space c ≡ false
unfolding is_hex_digit is_space
Digit-visible c h = ground arith

Digit-ascii : (c : ℕ) → Digit c → c % 128 ≡ c
unfolding is_hex_digit
Digit-ascii c h = ground arith

ascii-line : (t : Text) → All Digit t → ascii (t ++ b'\n' ∷ []) ≡ t ++ b'\n' ∷ []
ascii-line [] h = ground arith
ascii-line (c ∷ t) h = ground (arith, Digit-ascii c h.0, ascii-line t h.1)

all_hex-digits : (t : Text) → All Digit t → all_hex t ≡ true
unfolding all_hex
all_hex-digits [] h = refl
all_hex-digits (c ∷ t) h = ground (arith, h.0, all_hex-digits t h.1)

trim_start-digits : (t : Text) → All Digit t → trim_start t ≡ t
unfolding trim_start
trim_start-digits [] h = refl
trim_start-digits (c ∷ t) h = rw (Digit-visible c h.0) refl

All-append : (s t : Text) → All Digit s → All Digit t → All Digit (s ++ t)
All-append [] t h i = i
All-append (c ∷ s) t h i = (h.0, All-append s t h.1 i)

All-reverse_aux : (s t : Text) → All Digit s → All Digit t → All Digit (reverse_aux s t)
All-reverse_aux [] t h i = i
All-reverse_aux (c ∷ s) t h i = All-reverse_aux s (c ∷ t) h.1 (h.0, i)

-- Digits with a newline behind them are trimmed to the digits.
trim-digits : (t : Text) → All Digit t → t ≢ [] → trim (t ++ b'\n' ∷ []) ≡ t
unfolding trim trim_start is_space
trim-digits [] h some' = absurd (some' refl)
trim-digits (c ∷ t) h some' =
    let front : trim_start ((c ∷ t) ++ b'\n' ∷ []) ≡ (c ∷ t) ++ b'\n' ∷ [] =
      rw (Digit-visible c h.0, trim_start) refl in
    rw (front, reverse-append (c ∷ t) (b'\n' ∷ []))
      (rw (trim_start-digits (reverse (c ∷ t)) (All-reverse_aux (c ∷ t) [] h tt))
        (reverse-reverse (c ∷ t)))

module _ (p : Platform) (hex : IsHexText p) where
  digits : (bs : Bytes) → All IsByte bs → All Digit (p.to_hex bs)
  digits [] h = rw hex.to_hex-nil tt
  digits (b ∷ bs) h = rw (hex.to_hex-cons b bs) (
    hex_digit-Digit (b / 16) (omega (arith, h.0)),
    (hex_digit-Digit (b % 16) (omega arith), digits bs h.1),
  )

  -- The digits of a byte string are read back as the byte string.
  pub hex_to_bytes-to_hex : (bs : Bytes) → All IsByte bs → hex_to_bytes (p.to_hex bs) ≡ ok bs
  unfolding hex_to_bytes
  hex_to_bytes-to_hex bs h = Hex.hex_to_bytes-to_hex p hex bs h

  length-to_hex : (bs : Bytes) → length (p.to_hex bs) ≡ 2 * length bs
  length-to_hex [] = rw hex.to_hex-nil refl
  length-to_hex (b ∷ bs) = omega (arith, length-to_hex bs, ap length (hex.to_hex-cons b bs))

  length-some : (bs : Bytes) → bs ≢ [] → 1 ≤ length bs
  length-some [] some' = absurd (some' refl)
  length-some (b ∷ bs) some' = omega arith

  to_hex-some : (bs : Bytes) → bs ≢ [] → p.to_hex bs ≢ []
  to_hex-some bs some' e = omega (arith, length-to_hex bs, length-some bs some', ap length e)

  -- A payload of bytes, at least one, that was printed as digits on a line is read as the payload,
  -- unless binary input is asked for.
  pub coerce_payload-to_hex :
      (bs : Bytes) → All IsByte bs → bs ≢ [] → coerce_payload (p.to_hex bs ++ b'\n' ∷ []) false ≡ bs
  unfolding coerce_payload is_even
  coerce_payload-to_hex bs h some' =
      let all = digits bs h in
      let read : trim (ascii (p.to_hex bs ++ b'\n' ∷ [])) ≡ p.to_hex bs =
        ap trim (ascii-line (p.to_hex bs) all)
        ∙ trim-digits (p.to_hex bs) all (to_hex-some bs some') in
      let line : (length (p.to_hex bs ++ b'\n' ∷ []) == 0) ≡ false =
        ground (arith, length-append (p.to_hex bs) (b'\n' ∷ [])) in
      let even : (length (p.to_hex bs) == 0 || not (length (p.to_hex bs) % 2 == 0)) ≡ false =
        ground (arith, length-to_hex bs, length-some bs some') in
      rw (line, read, even)
        (rw (all_hex-digits (p.to_hex bs) all) (rw (Hex.hex_to_bytes-to_hex p hex bs h) refl))
