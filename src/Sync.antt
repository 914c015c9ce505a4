-- ===== src/Sync.antt =====
-- transport/rnsSync.js: deltas that are pushed to a node over a link, and the node's
-- acknowledgement. The links of `@reticulum/core` are arguments.
pub mod Acknowledged
use dacar.Common.{
  ℕ, suc, Bool, true, false, leb, ltb, ◌==◌, ◌&&◌, if◌then◌else◌, list_eq, List, [], ◌∷◌, map,
  Option, none, some, Bytes, Text, codes, length, Result, ok, err, ◌>>=◌,
}
use dacar.Platform.{Platform}
use dacar.Value.{
  Value, Fields, ℤ, pos, negsuc, nil, bool, int, float, str, bin, arr, object, end, field,
}
use dacar.Verifier.{Resolver}
use dacar.Crdt.{StateVector, Options}
use dacar.Delta.{apply_payload, apply_payloads}

-- The member of an object, if it has one.
unfoldable pub member : Fields → Text → Option Value
member end name = none
member (field k v fs) name = let rest = member fs name in if list_eq k name then some v else rest

-- A link's `request`, by the number of the request.
abbrev pub Link : Type 0
Link = ℕ → Bytes → Result Value

-- `is_number` tells the integers that `MsgPack.decode` returns as a `number` from those that it
-- returns as a `bigint`.
module _ (p : Platform) (is_number : ℕ → Bool) where
  unfoldable pub pack_ack : ℕ → Bytes
  pack_ack applied = p.encode (object (field (codes "applied") (int (pos applied)) end))

  count_of : Option Value → Option ℕ
  count_of (some (int (pos n))) = if is_number n then some n else none
  count_of _ = none

  decoded_ack : Result Value → Option ℕ
  unfolding count_of
  decoded_ack (ok (object fs)) = count_of (member fs (codes "applied"))
  decoded_ack _ = none

  unfoldable pub unpack_ack : Bytes → Option ℕ
  unfolding decoded_ack
  unpack_ack data' = if length data' == 0 then none else decoded_ack (p.decode data')

  acknowledges : Option ℕ → Bool
  acknowledges none = false
  acknowledges (some applied) = leb 1 applied

  response_ok : Result Value → Bool
  unfolding acknowledges
  response_ok (ok (bin b)) = acknowledges (unpack_ack b)
  response_ok _ = false

  unfoldable pub push_one : (Bytes → Result Value) → Bytes → Bool
  unfolding response_ok
  push_one request payload = response_ok (request payload)

  -- The loop over the payloads, one request after the other.
  push_each : Link → List Bytes → List Bool
  push_each link [] = []
  push_each link (b ∷ bs) = push_one (link 0) b ∷ push_each (λ i. link (suc i)) bs

  -- With what `ensureSyncPath` and `establishLink` came to.
  unfoldable pub push_deltas : Result (Option Link) → List Bytes → Result (List Bool)
  unfolding push_each
  push_deltas (err e) payloads = err e
  push_deltas (ok none) payloads = ok (map (λ b. false) payloads)
  push_deltas (ok (some link)) payloads = ok (push_each link payloads)

  module _ (resolver : Resolver p) (options : Options) where
    -- A batch that throws counts as nothing applied.
    caught : Result ℕ × StateVector → Result ℕ × StateVector
    caught (err e, s) = (ok 0, s)
    caught (ok n, s) = (ok n, s)

    -- The batch is read only where the payload was no applicable delta.
    after_single :
        StateVector → Bytes → (ℕ → ℕ) → Result (Bool × StateVector) → Result ℕ × StateVector
    unfolding caught
    after_single s data' clock (err e) = (err e, s)
    after_single s data' clock (ok (true, s')) = (ok 1, s')
    after_single s data' clock (ok (false, s')) =
        caught (apply_payloads p resolver options s' data' (λ i. clock (suc i)))

    unfoldable pub handle_push : StateVector → Bytes → (ℕ → ℕ) → Result ℕ × StateVector
    unfolding after_single
    handle_push s data' clock =
        if length data' == 0
        then (ok 0, s)
        else after_single s data' clock (apply_payload p resolver options s data' (clock 0))

    response : Result ℕ × StateVector → Option Bytes × StateVector
    response (ok n, s) = (some (pack_ack n), s)
    response (err e, s) = (none, s)

    unfoldable pub sync_request_handler : StateVector → Bytes → (ℕ → ℕ) → Option Bytes × StateVector
    unfolding response
    sync_request_handler s data' clock = response (handle_push s data' clock)
