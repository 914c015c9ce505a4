-- ===== src/Verifier.antt =====
-- verifier.js: the keyring and the authentication of an operation against its claimed issuer.
pub mod Authentic
pub mod Rings
use dacar.Common.{
  ℕ, Bool, true, false, List, [], ◌∷◌, Option, none, some, Bytes, Text, length, Result, ok, err,
  range_error, ◌==◌, require, ◌>>=◌, ◌>>◌,
}
use dacar.JsMap.{JsMap}
use dacar.JsMap
use dacar.Platform.{Platform}
use dacar.Namespace.{hash_size}
use dacar.Keyset.{IssuerKeyset, single, group}
use dacar.Operation.{Operation, verify_keyset}

unfoldable pub as_hash : Bytes → Result Bytes
as_hash value = do require (length value == hash_size) range_error; ok value

pub record Keyring : Type 0 where
  pub keysets : JsMap IssuerKeyset

abbrev pub new_keyring : Keyring
new_keyring = record { keysets = [] }

module _ (p : Platform) where
  unfoldable pub register : Keyring → Bytes → IssuerKeyset → Result Keyring
  unfolding as_hash
  register r issuer_hash keyset = do
    h ← as_hash issuer_hash
    ok (record { keysets = JsMap.set r.keysets (p.to_hex h) keyset })

  unfoldable pub register_single : Keyring → Bytes → Bytes → Result Keyring
  unfolding register
  register_single r issuer_hash public_key = do
    keyset ← single public_key
    register r issuer_hash keyset

  unfoldable pub register_group : Keyring → Bytes → List Bytes → ℕ → Result Keyring
  unfolding register
  register_group r group_id public_keys threshold = do
    keyset ← group public_keys threshold
    register r group_id keyset

  unfoldable pub resolve : Keyring → Bytes → Result (Option IssuerKeyset)
  unfolding as_hash
  resolve r issuer_hash = do h ← as_hash issuer_hash; ok (JsMap.get r.keysets (p.to_hex h))

  unfoldable pub forget : Keyring → Bytes → Result (Bool × Keyring)
  unfolding as_hash
  forget r issuer_hash = do
    h ← as_hash issuer_hash
    ok (JsMap.has r.keysets (p.to_hex h), record { keysets = JsMap.delete r.keysets (p.to_hex h) })

  unfoldable pub has : Keyring → Bytes → Result Bool
  unfolding as_hash
  has r issuer_hash = do h ← as_hash issuer_hash; ok (JsMap.has r.keysets (p.to_hex h))

  unfoldable pub entries : Keyring → List (Text × IssuerKeyset)
  entries r = r.keysets

  unfoldable pub size : Keyring → ℕ
  size r = JsMap.size r.keysets

  -- A resolver is a function, which may throw, or a keyring.
  pub data Resolver : Type 0 where
    function : (Bytes → Result (Option IssuerKeyset)) → Resolver
    keyring : Keyring → Resolver

  unfoldable pub resolve_keyset : Resolver → Bytes → Result (Option IssuerKeyset)
  unfolding resolve
  resolve_keyset (function f) issuer_hash = f issuer_hash
  resolve_keyset (keyring r) issuer_hash = resolve r issuer_hash

  verify_found : Operation → Option IssuerKeyset → Result Bool
  verify_found o none = ok false
  verify_found o (some keyset) = verify_keyset p o keyset

  unfoldable pub verify_operation : Operation → Resolver → Result Bool
  unfolding verify_found
  verify_operation o resolver = do
    found ← resolve_keyset resolver o.tuple.issuer
    verify_found o found
