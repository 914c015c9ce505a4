-- ===== src/Platform/Sample.antt =====
-- A concrete platform, which shows that the laws of the interface can be met. Its hexadecimal text
-- is the real one; its digests, identities and packing only have the shape of the real ones. The
-- tests run on it.
use dacar.Common.{
  ℕ, suc, ◌/◌, ◌%◌, ◌≡◌, refl, ap, [], ◌∷◌, ◌++◌, Bytes, Text, length, length-append, length-take,
  length-replicate, take, replicate, list_eq, list_eq_refl, cons-injective, Result, ok, err, error,
  arith,
}
use dacar.Platform.{Platform, hex_digit, IsHexText, IsHex, IsDigest, IsPacking, IsSigning}
use dacar.Platform.Coding.{encode, decode, decode-encode}

unfoldable pub to_hex : Bytes → Text
to_hex [] = []
to_hex (b ∷ bs) = hex_digit (b / 16) ∷ hex_digit (b % 16) ∷ to_hex bs

hex_digit-injective : (a b : ℕ) → hex_digit a ≡ hex_digit b → a ≡ b
hex_digit-injective a b e = ground arith

to_hex-injective : (a b : Bytes) → to_hex a ≡ to_hex b → a ≡ b
unfolding to_hex
to_hex-injective [] [] e = refl
to_hex-injective [] (y ∷ ys) e = cc
to_hex-injective (x ∷ xs) [] e = cc
to_hex-injective (x ∷ xs) (y ∷ ys) e =
    let (high, e1) = cons-injective e in
    let (low, e2) = cons-injective e1 in
    let first : x ≡ y = omega (
      arith,
      hex_digit-injective (x / 16) (y / 16) high,
      hex_digit-injective (x % 16) (y % 16) low,
    ) in
    cc (first, to_hex-injective xs ys e2)

-- The message cut or filled up to a length.
abbrev pub fit : ℕ → Bytes → Bytes
fit n m = take n (m ++ replicate n 0)

length-fit : (n : ℕ) (m : Bytes) → length (fit n m) ≡ n
length-fit n m = omega (
  arith,
  length-take n (m ++ replicate n 0),
  length-append m (replicate n 0),
  length-replicate {A = ℕ} n 0,
)

-- An identity is a number, and its public key starts with it.
abbrev pub public_key : ℕ → Bytes
public_key i = i ∷ fit 63 []

unfoldable pub from_public_key : Bytes → Result ℕ
from_public_key [] = err error
from_public_key (i ∷ rest) = ok i

abbrev pub sign : ℕ → Bytes → Bytes
sign i m = i ∷ fit 63 m

abbrev pub sample : Platform
sample = record {
  to_hex = to_hex;
  utf8 = λ t. t;
  from_utf8 = λ b. b;
  sha256 = fit 32;
  hmac_sha256 = λ k m. fit 32 (m ++ k);
  encode = encode;
  decode = decode;
  Identity = ℕ;
  from_public_key = from_public_key;
  public_key = public_key;
  identity_hash = λ i. fit 16 (i ∷ []);
  sign = sign;
  validate = λ i s m. list_eq s (sign i m);
}

pub sample-IsHex : IsHex sample
sample-IsHex = record { to_hex-injective = to_hex-injective }

pub sample-IsHexText : IsHexText sample
unfolding to_hex
sample-IsHexText = record { to_hex-nil = refl; to_hex-cons = λ b bs. refl }

pub sample-IsDigest : IsDigest sample
sample-IsDigest = record {
  length-sha256 = length-fit 32;
  length-hmac_sha256 = λ k m. length-fit 32 (m ++ k);
}

pub sample-IsPacking : IsPacking sample
sample-IsPacking = record { decode-encode = decode-encode }

pub sample-IsSigning : IsSigning sample
unfolding from_public_key
sample-IsSigning = record {
  length-sign = λ i m. ap suc (length-fit 63 m);
  validate-sign = λ i m. list_eq_refl (sign i m);
  from-public_key = λ i. refl;
}
