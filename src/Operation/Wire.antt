-- ===== src/Operation/Wire.antt =====
-- The transport payload of operation.js: `toPayload` and `fromPayload`.
use dacar.Common.{
  zero, suc, ◌==◌, not, List, [], ◌∷◌, map, Bytes, length, Result, ok, err, error, require, ◌>>=◌,
  ◌>>◌,
}
use dacar.Platform.{Platform}
use dacar.Value.{
  pos, Value, bool, int, bin, arr, from_list, expect_array, expect_bytes, expect_bool, map_result,
  map_array,
}
use dacar.Value.BigInt.{big_int}
use dacar.Tuple.{new_tuple}
use dacar.Operation.{Operation, Action, revoke, grant, action_byte, new_operation, signature_size}

unfoldable pub to_value : Operation → Value
to_value o = arr (
    from_list (
      bin o.tuple.issuer
      ∷ bin o.tuple.grantee
      ∷ int (pos (action_byte o.action))
      ∷ int (pos o.hlc)
      ∷ bin o.tuple.relation_hash
      ∷ arr (from_list (map bin o.tuple.object_hashes))
      ∷ bool o.tuple.is_wildcard
      ∷ arr (from_list (map bin o.signatures))
      ∷ []))

unfoldable pub to_payload : (p : Platform) → Operation → Result Bytes
unfolding to_value
to_payload p o = do require (not (length o.signatures == 0)) error; ok (p.encode (to_value o))

-- `action !== Action.GRANT && action !== Action.REVOKE`
unfoldable pub read_action : Value → Result Action
read_action (int (pos zero)) = ok revoke
read_action (int (pos (suc zero))) = ok grant
read_action _ = err error

-- `!Array.isArray(signatures) || signatures.length === 0`
unfoldable pub read_signatures : Value → Result (List Value)
read_signatures v = do items ← expect_array v; require (not (length items == 0)) error; ok items

unfoldable pub read_fields : List Value → Result Operation
unfolding read_action read_signatures expect_array
read_fields (issuer ∷ grantee ∷ action ∷ hlc ∷ relation ∷ objects ∷ wildcard ∷ signatures ∷ []) = do
  act ← read_action action
  items ← read_signatures signatures
  relation_hash ← expect_bytes relation 16
  object_hashes ← map_array (λ h. expect_bytes h 16) objects
  is_wildcard ← expect_bool wildcard
  grantee_hash ← expect_bytes grantee 16
  issuer_hash ← expect_bytes issuer 16
  tuple ← new_tuple (record {
    relation_hash = relation_hash;
    object_hashes = object_hashes;
    is_wildcard = is_wildcard;
    grantee = grantee_hash;
    issuer = issuer_hash;
  })
  n ← big_int hlc
  sigs ← map_result (λ s. expect_bytes s signature_size) items
  new_operation tuple act n sigs
read_fields _ = err error

unfoldable pub from_value : Value → Result Operation
unfolding read_fields expect_array
from_value v = do fields ← expect_array v; read_fields fields

unfoldable pub from_payload : (p : Platform) → Bytes → Result Operation
unfolding from_value
from_payload p data' = do decoded ← p.decode data'; from_value decoded
