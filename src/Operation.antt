-- ===== src/Operation.antt =====
-- operation.js: the signed operation, its signature pre-image, the threshold check of its
-- signatures and its transport payload.
pub mod Signed
pub mod Signing
pub mod Wire
pub mod Preimages
pub mod Payload
pub mod Sets
use dacar.Common.{
  ℕ, zero, suc, ◌+◌, ◌*◌, ◌/◌, ◌%◌, ◌^◌, Bool, true, false, not, ◌&&◌, ◌||◌, ◌++◌, ltb, leb, ◌==◌,
  if◌then◌else◌, List, [], ◌∷◌, map, Option, none, some, Bytes, Text, length, list_eq, Result, ok,
  err, range_error, type_error, error, require, ◌>>=◌, ◌>>◌,
}
use dacar.Platform.{Platform}
use dacar.Value.{
  ℤ, pos, negsuc, Value, nil, bool, int, float, str, bin, arr, object, from_list, expect_array,
  expect_bytes, expect_bool, map_result, map_array,
}
use dacar.Value.BigInt.{big_int}
use dacar.Hlc.{max_hlc}
use dacar.Namespace.{hash_size}
use dacar.Tuple.{Tuple, flag, concat}
use dacar.Keyset.{IssuerKeyset}

abbrev pub signature_size : ℕ
signature_size = 64

abbrev pub hlc_bytes : ℕ
hlc_bytes = 8

pub data Action : Type 0 where
  revoke grant : Action

abbrev pub action_byte : Action → ℕ
action_byte revoke = 0x00
action_byte grant = 0x01

pub record Operation : Type 0 where
  pub tuple : Tuple
  pub action : Action
  pub hlc : ℕ
  pub signatures : List Bytes

-- The getters that pass on the tuple's fields.
abbrev pub issuer : Operation → Bytes
issuer o = o.tuple.issuer

abbrev pub grantee : Operation → Bytes
grantee o = o.tuple.grantee

abbrev pub relation_hash : Operation → Bytes
relation_hash o = o.tuple.relation_hash

abbrev pub object_hashes : Operation → List Bytes
object_hashes o = o.tuple.object_hashes

abbrev pub is_wildcard : Operation → Bool
is_wildcard o = o.tuple.is_wildcard

check_hlc : ℤ → Result ℕ
check_hlc (pos n) = if leb n max_hlc then ok n else err range_error
check_hlc (negsuc n) = err range_error

unfoldable pub all_sized : ℕ → List Bytes → Bool
all_sized n [] = true
all_sized n (s ∷ ss) = length s == n && all_sized n ss

-- The constructor. The type of the action leaves no other value to refuse.
unfoldable pub new_operation : Tuple → Action → ℤ → List Bytes → Result Operation
unfolding check_hlc all_sized
new_operation tuple action hlc signatures = do
  n ← check_hlc hlc
  require (all_sized signature_size signatures) range_error
  ok (record { tuple = tuple; action = action; hlc = n; signatures = signatures })

-- `setBigUint64(…, false)`: the last `n` bytes of a number, the highest first.
unfoldable pub big_endian : ℕ → ℕ → Bytes
big_endian zero x = []
big_endian (suc n) x = big_endian n (x / 256) ++ (x % 256) ∷ []

unfoldable pub preimage : Operation → Bytes
preimage o =
    o.tuple.issuer
    ++ (o.tuple.grantee
        ++ (action_byte o.action ∷ big_endian hlc_bytes o.hlc
            ++ (o.tuple.relation_hash
                ++ (flag o.tuple.is_wildcard
                    ∷ length o.tuple.object_hashes
                    ∷ concat o.tuple.object_hashes))))

-- A `Set` of strings, by its elements.
unfoldable pub set_has : List Text → Text → Bool
set_has [] t = false
set_has (s ∷ ss) t = list_eq s t || set_has ss t

unfoldable pub set_add : List Text → Text → List Text
unfolding set_has
set_add ss t = if set_has ss t then ss else t ∷ ss

module _ (p : Platform) where
  unfoldable pub sign : Operation → List p.Identity → Result Operation
  sign o [] = err error
  sign o (i ∷ is) =
      new_operation o.tuple o.action (pos o.hlc) (map (λ j. p.sign j (preimage o)) (i ∷ is))

  pub data KeyLike : Type 0 where
    identity : p.Identity → KeyLike
    raw : Bytes → KeyLike

  unfoldable pub as_identity : KeyLike → Result p.Identity
  as_identity (identity i) = ok i
  as_identity (raw b) = p.from_public_key b

  unfoldable pub key_hex : p.Identity → Text
  key_hex i = p.to_hex (p.public_key i)

  -- The first member whose key is not used yet and validates the signature.
  unfoldable pub find_signer : List p.Identity → List Text → Bytes → Bytes → Option p.Identity
  find_signer [] used sig message = none
  find_signer (m ∷ ms) used sig message =
      let rest = find_signer ms used sig message in
      if set_has used (key_hex m) then rest else if p.validate m sig message then some m else rest

  -- The loop over the signatures: the used keys at its end, or none where it returns `false`.
  unfoldable pub match_signatures :
      List p.Identity → List Bytes → List Text → Bytes → Option (List Text)
  unfolding find_signer
  match_signatures ms [] used message = some used
  match_signatures ms (sig ∷ sigs) used message =
      if length sig == signature_size
      then (elim (find_signer ms used sig message) [
        | none ↦ none
        | some m ↦ match_signatures ms sigs (set_add used (key_hex m)) message
      ])
      else none

  abbrev pub is_size : Option (List Text) → ℕ → Bool
  is_size none n = false
  is_size (some used) n = length used == n

  unfoldable pub verify_threshold : Operation → List KeyLike → ℕ → Result Bool
  verify_threshold o keys threshold =
      if not (leb 1 threshold) || not (length o.signatures == threshold)
      then ok false
      else if ltb (length keys) threshold
      then ok false
      else do
        members ← map_result as_identity keys
        ok (is_size (match_signatures members o.signatures [] (preimage o)) threshold)

  unfoldable pub verify : Operation → KeyLike → Result Bool
  unfolding verify_threshold
  verify o k = if length o.signatures == 1 then verify_threshold o (k ∷ []) 1 else ok false

  unfoldable pub verify_keyset : Operation → IssuerKeyset → Result Bool
  verify_keyset o ks = verify_threshold o (map raw ks.member_public_keys) ks.threshold
