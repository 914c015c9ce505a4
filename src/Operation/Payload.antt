-- ===== src/Operation/Payload.antt =====
-- The payload of operation.js: what is decoded is well formed, and what is encoded decodes again.
use dacar.Common.{
  ℕ, ◌≤◌, ◌≡◌, ◌≢◌, refl, List, [], ◌∷◌, map, Bytes, true, arith, length, All, Result, ok,
  require-eq-ok, require, Ensures, Ensures-bind, Ensures-ok, range_error,
}
use dacar.Platform.{Platform, IsPacking}
use dacar.Value.{
  ℤ, pos, negsuc, Value, bin, arr, int, from_list, expect_bytes, expect_array, expect_bool,
  map_result, map_array, to_list,
}
use dacar.Value.BigInt.{big_int}
use dacar.Hlc.{max_hlc}
use dacar.Tuple.{Tuple, new_tuple}
use dacar.Tuple.Preimage.{IsTuple, new_tuple_iff, new_tuple-IsTuple}
use dacar.Operation.{
  Operation, Action, revoke, grant, action_byte, new_operation, check_hlc, all_sized,
  signature_size,
}
use dacar.Operation.Wire.{
  to_payload, from_payload, to_value, from_value, read_fields, read_action, read_signatures,
}

-- What the constructor and the decoder ensure.
pub record IsOperation (o : Operation) : Type 0 where
  pub tuple : IsTuple o.tuple
  pub hlc : o.hlc ≤ max_hlc
  pub signatures : All (λ s. length s ≡ signature_size) o.signatures

pub expect_bytes-map :
    (n : ℕ) (bs : List Bytes)
    → All (λ b. length b ≡ n) bs
    → map_result (λ v. expect_bytes v n) (to_list (from_list (map bin bs))) ≡ ok bs
unfolding map_result expect_bytes
expect_bytes-map n [] h = refl
expect_bytes-map n (b ∷ bs) h = ground (arith, h.0, expect_bytes-map n bs h.1)

all_sized-All : (n : ℕ) (bs : List Bytes) → all_sized n bs ≡ true → All (λ b. length b ≡ n) bs
unfolding all_sized
all_sized-All n [] h = tt
all_sized-All n (b ∷ bs) h = (ground arith, all_sized-All n bs (ground arith))

All-all_sized : (n : ℕ) (bs : List Bytes) → All (λ b. length b ≡ n) bs → all_sized n bs ≡ true
unfolding all_sized
All-all_sized n [] h = refl
All-all_sized n (b ∷ bs) h = ground (arith, h.0, All-all_sized n bs h.1)

new_operation_lem :
    (o : Operation) → IsOperation o → new_operation o.tuple o.action (pos o.hlc) o.signatures ≡ ok o
unfolding new_operation
new_operation_lem o v =
    ground (arith, v.hlc, All-all_sized signature_size o.signatures v.signatures)

read_action-byte : (a : Action) → read_action (int (pos (action_byte a))) ≡ ok a
unfolding read_action
read_action-byte revoke = refl
read_action-byte grant = refl

read_signatures-map :
    (ss : List Bytes)
    → ss ≢ []
    → read_signatures (arr (from_list (map bin ss))) ≡ ok (to_list (from_list (map bin ss)))
unfolding read_signatures expect_array
read_signatures-map [] h = absurd (h refl)
read_signatures-map (s ∷ ss) h = ground arith

from_value-to_value :
    (o : Operation) → IsOperation o → o.signatures ≢ [] → from_value (to_value o) ≡ ok o
unfolding from_value to_value map_array big_int expect_bytes expect_bool
from_value-to_value o v signed = ground (
  arith,
  read_action-byte o.action,
  read_signatures-map o.signatures signed,
  expect_bytes-map 16 o.tuple.object_hashes v.tuple.objects,
  expect_bytes-map signature_size o.signatures v.signatures,
  v.tuple.relation,
  v.tuple.grantee,
  v.tuple.issuer,
  (new_tuple_iff o.tuple o.tuple).1 (refl, v.tuple),
  new_operation_lem o v,
)

-- A signed, well-formed operation is encoded, and decoding gives it back.
pub from_payload-to_payload :
    (p : Platform) (o : Operation)
    → IsPacking p
    → IsOperation o
    → o.signatures ≢ []
    → (data' : Bytes) × (to_payload p o ≡ ok data') × (from_payload p data' ≡ ok o)
from_payload-to_payload p o packing v signed =
    (p.encode (to_value o), encoded o.signatures refl, decoded)
  where
    encoded : (ss : List Bytes) → o.signatures ≡ ss → to_payload p o ≡ ok (p.encode (to_value o))
    encoded [] e = absurd (signed e)
    encoded (s ∷ ss) e = unfold to_payload in ground (arith, e)

    decoded : from_payload p (p.encode (to_value o)) ≡ ok o
    decoded =
        unfold from_payload in
        rw (packing.decode-encode (to_value o)) (from_value-to_value o v signed)

-- Well formed, and carrying at least one signature.
abbrev pub IsDelta : Operation → Type 0
IsDelta o = IsOperation o × (o.signatures ≢ [])

check_hlc-le : (z : ℤ) (n : ℕ) → check_hlc z ≡ ok n → n ≤ max_hlc
unfolding check_hlc
check_hlc-le (pos m) n e = ground arith
check_hlc-le (negsuc m) n e = cc

new_operation-IsDelta :
    (t : Tuple) (a : Action) (z : ℤ) (ss : List Bytes)
    → IsTuple t
    → ss ≢ []
    → Ensures IsDelta (new_operation t a z ss)
unfolding new_operation
new_operation-IsDelta t a z ss v signed = Ensures-bind IsDelta (check_hlc z) _ λ m hm.
    Ensures-bind IsDelta (require (all_sized signature_size ss) range_error) _ λ u hu. (
      record {
        tuple = v;
        hlc = check_hlc-le z m hm;
        signatures = all_sized-All signature_size ss (require-eq-ok _ range_error hu);
      },
      signed,
    )

map_result-nonempty :
    (f : Value → Result Bytes) (vs : List Value) (ys : List Bytes)
    → vs ≢ []
    → map_result f vs ≡ ok ys
    → ys ≢ []
unfolding map_result
map_result-nonempty f [] ys h e = absurd (h refl)
map_result-nonempty f (v ∷ vs) ys h e = ground arith

read_signatures-nonempty :
    (v : Value) (items : List Value) → read_signatures v ≡ ok items → items ≢ []
unfolding read_signatures
read_signatures-nonempty v items e = ground arith

read_fields-IsDelta : (vs : List Value) → Ensures IsDelta (read_fields vs)
unfolding read_fields
read_fields-IsDelta (i ∷ g ∷ a ∷ h ∷ r ∷ os ∷ w ∷ ss ∷ []) =
    Ensures-bind IsDelta (read_action a) _ λ act _.
      Ensures-bind IsDelta (read_signatures ss) _ λ items some_items.
        Ensures-bind IsDelta (expect_bytes r 16) _ λ rh _.
          Ensures-bind IsDelta (map_array (λ v. expect_bytes v 16) os) _ λ ohs _.
            Ensures-bind IsDelta (expect_bool w) _ λ wild _.
              Ensures-bind IsDelta (expect_bytes g 16) _ λ gh _.
                Ensures-bind IsDelta (expect_bytes i 16) _ λ ih _.
                  Ensures-bind IsDelta (new_tuple _) _ λ t built.
                    Ensures-bind IsDelta (big_int h) _ λ n _.
                      Ensures-bind IsDelta (map_result (λ v. expect_bytes v signature_size) items) _
                        λ sigs read.
                          new_operation-IsDelta t act n sigs (new_tuple-IsTuple _ t built) (
                            map_result-nonempty _ items sigs
                              (read_signatures-nonempty ss items some_items) read)
read_fields-IsDelta _ = tt

-- Whatever bytes arrive, what is decoded from them is well formed and carries a signature: every
-- hash has 16 bytes, every signature 64, at most 255 segments, and the clock fits 64 bits.
pub from_payload-IsDelta :
    (p : Platform) (data' : Bytes) (o : Operation) → from_payload p data' ≡ ok o → IsDelta o
unfolding from_payload from_value
from_payload-IsDelta p data' o e =
    Ensures-ok IsDelta _ o
      (Ensures-bind IsDelta (p.decode data') _
        λ v _. Ensures-bind IsDelta (expect_array v) _ λ fields _. read_fields-IsDelta fields)
      e
