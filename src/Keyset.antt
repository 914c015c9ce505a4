-- ===== src/Keyset.antt =====
-- `IssuerKeyset` of verifier.js: the public keys of an issuer and its threshold.
use dacar.Common.{
  ℕ, Bool, true, ◌&&◌, List, [], ◌∷◌, Bytes, length, leb, ltb, ◌==◌, not, Result, ok, error,
  range_error, require, ◌>>◌,
}

abbrev pub rns_public_key_size : ℕ
rns_public_key_size = 64

pub record IssuerKeyset : Type 0 where
  pub member_public_keys : List Bytes
  pub threshold : ℕ

all_keys : List Bytes → Bool
all_keys [] = true
all_keys (k ∷ ks) = length k == rns_public_key_size && all_keys ks

-- The constructor.
unfoldable pub new_keyset : List Bytes → ℕ → Result IssuerKeyset
unfolding all_keys
new_keyset keys threshold = do
  require (leb 1 threshold) error
  require (not (ltb (length keys) threshold)) error
  require (all_keys keys) range_error
  ok (record { member_public_keys = keys; threshold = threshold })

unfoldable pub single : Bytes → Result IssuerKeyset
unfolding new_keyset
single public_key = new_keyset (public_key ∷ []) 1

unfoldable pub group : List Bytes → ℕ → Result IssuerKeyset
unfolding new_keyset
group keys threshold = new_keyset keys threshold
