-- ===== src/Crdt/Restore.antt =====
-- `StateVector.fromPayload` of crdt.js, which reads a snapshot. The times in it may be any integers.
pub mod Restored
use dacar.Common.{
  ℕ, leb, List, [], ◌∷◌, map, Option, none, some, Text, Bytes, Result, ok, err, error, require,
  ◌>>=◌, ◌>>◌,
}
use dacar.JsMap.{JsMap}
use dacar.JsMap
use dacar.Platform.{Platform}
use dacar.Value.{ℤ, Value, nil, expect_array, expect_bytes, expect_bool, map_array}
use dacar.Value.BigInt.{big_int}
use dacar.Tuple.{Tuple, new_tuple, key}

pub record RawEntry : Type 0 where
  pub tuple : Tuple
  pub add_ts : Option ℤ
  pub remove_ts : Option ℤ

pub record RawState : Type 0 where
  pub entries : JsMap RawEntry
  pub deletion_horizon_days : ℕ

unfoldable pub normalize_ts : Value → Result (Option ℤ)
normalize_ts nil = ok none
normalize_ts v = do z ← big_int v; ok (some z)

unfoldable pub read_row : List Value → Result RawEntry
unfolding normalize_ts
read_row (relation ∷ objects ∷ wildcard ∷ grantee ∷ issuer ∷ add_ts ∷ remove_ts ∷ []) = do
  relation_hash ← expect_bytes relation 16
  object_hashes ← map_array (λ h. expect_bytes h 16) objects
  is_wildcard ← expect_bool wildcard
  grantee_hash ← expect_bytes grantee 16
  issuer_hash ← expect_bytes issuer 16
  tuple ← new_tuple (record {
    relation_hash = relation_hash;
    object_hashes = object_hashes;
    is_wildcard = is_wildcard;
    grantee = grantee_hash;
    issuer = issuer_hash;
  })
  added ← normalize_ts add_ts
  removed ← normalize_ts remove_ts
  ok (record { tuple = tuple; add_ts = added; remove_ts = removed })
read_row _ = err error

module _ (p : Platform) where
  -- The loop over the rows, from the entries read so far.
  unfoldable pub read_rows : JsMap RawEntry → List Value → Result (JsMap RawEntry)
  unfolding read_row
  read_rows m [] = ok m
  read_rows m (v ∷ vs) = do
    fields ← expect_array v
    e ← read_row fields
    read_rows (JsMap.set m (key p e.tuple) e) vs

  unfoldable pub from_payload : Bytes → ℕ → Result RawState
  unfolding read_rows
  from_payload data' days = do
    decoded ← p.decode data'
    rows ← expect_array decoded
    require (leb 1 days) error
    entries ← read_rows [] rows
    ok (record { entries = entries; deletion_horizon_days = days })
