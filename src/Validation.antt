-- ===== src/Validation.antt =====
-- cli/dacar.js: `validate`, which looks for entries of the ledger and tuples of the state that seem to
-- be damaged. A report has its source and the hash that it names; its texts are left out.
pub mod Unmatched
use dacar.Common.{
  ℕ, suc, Bool, true, false, ◌&&◌, ◌||◌, ltb, leb, ◌==◌, list_eq, if◌then◌else◌, List, [], ◌∷◌,
  ◌++◌, Option, none, some, Bytes, Text, length,
}
use dacar.JsMap.{JsMap}
use dacar.JsMap
use dacar.Platform.{Platform}
use dacar.Tuple.{Tuple, hash}
use dacar.Crdt.{StateVector, Entry}
use dacar.Crdt.Snapshot.{has}
use dacar.Inputs.{tuple_hash_bytes}
use dacar.Issue.{LedgerRow}
use dacar.Display.{truthy}

pub data Reason : Type 0 where
  comma long segments printable : Reason

-- `has_state_tuple` is only there in the reports of the first loop.
pub record Report : Type 0 where
  pub reason : Reason
  pub tuple_hash : Text
  pub has_state_tuple : Option Bool

unfoldable pub includes_comma : Text → Bool
includes_comma [] = false
includes_comma (c ∷ t) = c == b',' || includes_comma t

-- What is wrong with the object of a row.
unfoldable pub object_reason : Text → Option Reason
unfolding includes_comma
object_reason object_id =
    if includes_comma object_id
    then some comma
    else if ltb 100 (length object_id)
    then some long
    else none

unfoldable pub row_reason : Option LedgerRow → Option Reason
unfolding object_reason
row_reason none = none
row_reason (some row) = elim (truthy row.object_id) [ none ↦ none | some o ↦ object_reason o ]

printable_count : Bytes → ℕ
printable_count [] = 0
printable_count (b ∷ bs) =
    let rest = printable_count bs in if leb 32 b && ltb b 127 then suc rest else rest

-- The loop over the segments ends at the first that is reported.
unfoldable pub any_printable : List Bytes → Bool
unfolding printable_count
any_printable [] = false
any_printable (h ∷ hs) = ltb 8 (printable_count h) || any_printable hs

reported : List Report → Text → Bool
reported [] k = false
reported (r ∷ rs) k = list_eq r.tuple_hash k || reported rs k

-- The reports on a tuple itself.
tuple_reports : Text → Tuple → List Report
unfolding any_printable
tuple_reports k t =
    (if ltb 10 (length t.object_hashes)
      then record { reason = segments; tuple_hash = k; has_state_tuple = none } ∷ []
      else [])
    ++ (if any_printable t.object_hashes
        then record { reason = printable; tuple_hash = k; has_state_tuple = none } ∷ []
        else [])

entry_reports : Text → Tuple → Option Reason → List Report
unfolding tuple_reports
entry_reports k t none = tuple_reports k t
entry_reports k t (some comma) =
    record { reason = comma; tuple_hash = k; has_state_tuple = none } ∷ []
entry_reports k t (some reason) =
    record { reason = reason; tuple_hash = k; has_state_tuple = none } ∷ tuple_reports k t

module _ (p : Platform) where
  -- The first loop, over the ledger.
  unfoldable pub ledger_reports : StateVector → JsMap LedgerRow → List Report
  unfolding row_reason
  ledger_reports state [] = []
  ledger_reports state ((k, row) ∷ m) =
      let rest = ledger_reports state m in
      elim (row_reason (some row)) [
        | none ↦ rest
        | some reason ↦
            record {
              reason = reason;
              tuple_hash = k;
              has_state_tuple = some (has state (p.to_hex (tuple_hash_bytes k)));
            }
            ∷ rest
      ]

  -- The second loop, over the state, with the reports so far.
  unfoldable pub state_reports : JsMap LedgerRow → List Report → JsMap Entry → List Report
  unfolding reported entry_reports row_reason
  state_reports ledger reports [] = reports
  state_reports ledger reports ((key, e) ∷ m) =
      let k = p.to_hex (hash p e.tuple) in
      elim (reported reports k) [
        | true ↦ state_reports ledger reports m
        | false ↦
            state_reports ledger
              (reports ++ entry_reports k e.tuple (row_reason (JsMap.get ledger k))) m
      ]

  -- `cmdValidate`: the reports; the exit code is 0 if there are none.
  unfoldable pub validate : StateVector → JsMap LedgerRow → List Report
  unfolding ledger_reports state_reports
  validate state ledger = state_reports ledger (ledger_reports state ledger) state.entries
