-- ===== src/Delta.antt =====
-- delta.js: the receive boundary that every transport hands its bytes to. The state and the
-- resolver of the receiver are arguments; a call returns the state as it leaves it.
pub mod Receipt
pub mod Batch
use dacar.Common.{
  ℕ, zero, suc, ◌+◌, Bool, true, false, List, [], ◌∷◌, map, Bytes, Result, ok, err, ◌>>=◌,
}
use dacar.Platform.{Platform}
use dacar.Value.{Value, nil, bool, int, float, str, bin, arr, object, from_list, to_list}
use dacar.Operation.{Operation}
use dacar.Operation.Wire.{from_payload}
use dacar.Verifier.{Resolver}
use dacar.Crdt.{StateVector, Options, ingest}

module _ (p : Platform) (resolver : Resolver p) (options : Options) where
  ingest_decoded : StateVector → Result Operation → ℕ → Result (Bool × StateVector)
  ingest_decoded s (err e) clock_ms = ok (false, s)
  ingest_decoded s (ok o) clock_ms = ingest p s o resolver options clock_ms

  unfoldable pub apply_payload : StateVector → Bytes → ℕ → Result (Bool × StateVector)
  unfolding ingest_decoded
  apply_payload s payload clock_ms = ingest_decoded s (from_payload p payload) clock_ms

  -- One item that is a byte string, and then the rest of the loop. What was applied before an item
  -- that throws stays applied.
  counted :
      (StateVector → ℕ → Result ℕ × StateVector)
      → ℕ
      → Result (Bool × StateVector)
      → StateVector
      → Result ℕ × StateVector
  counted rest n (err e) s = (err e, s)
  counted rest n (ok (true, s')) s = rest s' (n + 1)
  counted rest n (ok (false, s')) s = rest s' n

  -- The loop over the items, with the wall clock at each of them and the count so far.
  unfoldable pub apply_items : List Value → (ℕ → ℕ) → StateVector → ℕ → Result ℕ × StateVector
  unfolding counted
  apply_items [] clock s n = (ok n, s)
  apply_items (bin b ∷ items) clock s n =
      counted (apply_items items (λ i. clock (suc i))) n (apply_payload s b (clock 0)) s
  apply_items (v ∷ items) clock s n = apply_items items (λ i. clock (suc i)) s n

  apply_decoded : StateVector → (ℕ → ℕ) → Result Value → Result ℕ × StateVector
  unfolding apply_items
  apply_decoded s clock (ok (arr items)) = apply_items (to_list items) clock s 0
  apply_decoded s clock _ = (ok 0, s)

  unfoldable pub apply_payloads : StateVector → Bytes → (ℕ → ℕ) → Result ℕ × StateVector
  unfolding apply_decoded
  apply_payloads s payload clock = apply_decoded s clock (p.decode payload)

unfoldable pub pack_payloads : (p : Platform) → List Bytes → Bytes
pack_payloads p payloads = p.encode (arr (from_list (map bin payloads)))
