-- ===== src/Validation/Unmatched.antt =====
-- `validate` of cli/dacar.js looks a tuple up by its hash in a state that is keyed by the pre-images.
use dacar.Common.{
  ◌≤◌, ◌≡◌, ◌≢◌, inl, inr, refl, sym, ap, ◌∙◌, Bool, true, false, ltb, if◌then◌else◌, Bool-cases,
  List, [], ◌∷◌, ◌++◌, Option, none, some, Text, length, length-append, All, In, In-append, arith,
}
use dacar.JsMap.{JsMap}
use dacar.JsMap
use dacar.JsMap.Keys.{AllEntries, get_absent}
use dacar.Platform.{Platform, IsHex}
use dacar.Tuple.{Tuple, preimage, key, hash}
use dacar.Tuple.Preimage.{IsTuple}
use dacar.Crdt.{StateVector, Entry}
use dacar.Crdt.Snapshot.{has}
use dacar.Crdt.Invariant.{IsState, IsEntry}
use dacar.Inputs.{tuple_hash_bytes}
use dacar.Issue.{LedgerRow}
use dacar.Validation.{
  Report, Reason, comma, long, segments, printable, row_reason, tuple_reports, entry_reports,
  any_printable, reported, ledger_reports, state_reports, validate,
}

length-preimage : (t : Tuple) → IsTuple t → 48 ≤ length (preimage t)
unfolding preimage
length-preimage t v = omega (
  arith,
  v.relation,
  v.grantee,
  v.issuer,
  length-append t.issuer _,
  length-append t.grantee _,
  length-append t.relation_hash _,
)

length-tuple_hash_bytes : (h : Text) → length (tuple_hash_bytes h) ≤ 32
unfolding tuple_hash_bytes
length-tuple_hash_bytes h = ground arith

-- The report on a row of the ledger that the state is said to have no tuple for.
abbrev pub missed : Text → Reason → Report
missed k reason = record { reason = reason; tuple_hash = k; has_state_tuple = some false }

abbrev Unmatched : Report → Type 0
Unmatched r = r.has_state_tuple ≢ some true

All-append : (rs ss : List Report) → All Unmatched rs → All Unmatched ss → All Unmatched (rs ++ ss)
All-append [] ss h i = i
All-append (r ∷ rs) ss h i = (h.0, All-append rs ss h.1 i)

some-none : {b : Bool} → none ≡ some b → ⊥
some-none e = cc

tuple_reports-Unmatched : (k : Text) (t : Tuple) → All Unmatched (tuple_reports k t)
unfolding tuple_reports
tuple_reports-Unmatched k t =
    All-append _ _ (one (ltb 10 (length t.object_hashes)) segments k)
      (one (any_printable t.object_hashes) printable k)
  where
    one :
        (b : Bool) (r : Reason) (k : Text)
        → All Unmatched
            (if b then record { reason = r; tuple_hash = k; has_state_tuple = none } ∷ [] else [])
    one true r k = (some-none, tt)
    one false r k = tt

entry_reports-Unmatched :
    (k : Text) (t : Tuple) (r : Option Reason) → All Unmatched (entry_reports k t r)
unfolding entry_reports
entry_reports-Unmatched k t none = tuple_reports-Unmatched k t
entry_reports-Unmatched k t (some comma) = (some-none, tt)
entry_reports-Unmatched k t (some long) = (some-none, tuple_reports-Unmatched k t)
entry_reports-Unmatched k t (some segments) = (some-none, tuple_reports-Unmatched k t)
entry_reports-Unmatched k t (some printable) = (some-none, tuple_reports-Unmatched k t)

module _ (p : Platform) (hex : IsHex p) where
  other_key :
      (h : Text) (m : JsMap Entry)
      → AllEntries (IsEntry p) m
      → AllEntries (λ j e. j ≢ p.to_hex (tuple_hash_bytes h)) m
  unfolding key
  other_key h [] v = tt
  other_key h ((k, e) ∷ m) v = (differs, other_key h m v.1)
    where
      differs : k ≢ p.to_hex (tuple_hash_bytes h)
      differs same = omega (
        arith,
        length-preimage e.tuple v.0.tuple,
        length-tuple_hash_bytes h,
        ap length
            (hex.to_hex-injective (preimage e.tuple) (tuple_hash_bytes h) (sym v.0.keyed ∙ same)),
      )

  has-tuple_hash_bytes :
      (s : StateVector) (h : Text) → IsState p s → has s (p.to_hex (tuple_hash_bytes h)) ≡ false
  unfolding has JsMap.has
  has-tuple_hash_bytes s h v = rw (get_absent s.entries _ (other_key h s.entries v.entries)) refl

  ledger_reports-Unmatched :
      (s : StateVector) (ledger : JsMap LedgerRow)
      → IsState p s
      → All Unmatched (ledger_reports p s ledger)
  unfolding ledger_reports
  ledger_reports-Unmatched s [] v = tt
  ledger_reports-Unmatched s ((k, row) ∷ m) v =
      go (row_reason (some row)) refl (ledger_reports-Unmatched s m v)
    where
      absent : some (has s (p.to_hex (tuple_hash_bytes k))) ≢ some true
      absent e = ground (arith, has-tuple_hash_bytes s k v)

      go :
          (r : Option Reason)
          → row_reason (some row) ≡ r
          → All Unmatched (ledger_reports p s m)
          → All Unmatched (ledger_reports p s ((k, row) ∷ m))
      go none same rest = rw (same, ledger_reports) rest
      go (some r) same rest = rw (same, ledger_reports) (absent, rest)

  state_reports-Unmatched :
      (ledger : JsMap LedgerRow) (reports : List Report) (m : JsMap Entry)
      → All Unmatched reports
      → All Unmatched (state_reports p ledger reports m)
  unfolding state_reports
  state_reports-Unmatched ledger reports [] h = h
  state_reports-Unmatched ledger reports ((k, e) ∷ m) h =
      elim (Bool-cases (reported reports (p.to_hex (hash p e.tuple)))) [
        | inl known ↦ rw (known, state_reports) (state_reports-Unmatched ledger reports m h)
        | inr new ↦
            rw (new, state_reports)
              (state_reports-Unmatched ledger
                (reports
                  ++ entry_reports (p.to_hex (hash p e.tuple)) e.tuple
                      (row_reason (JsMap.get ledger (p.to_hex (hash p e.tuple)))))
                m (All-append reports _ h (entry_reports-Unmatched _ e.tuple _)))
      ]

  ledger_reports-In :
      (s : StateVector) (ledger : JsMap LedgerRow) (k : Text) (row : LedgerRow) (reason : Reason)
      → IsState p s
      → In (k, row) ledger
      → row_reason (some row) ≡ some reason
      → In (missed k reason) (ledger_reports p s ledger)
  unfolding ledger_reports
  ledger_reports-In s [] k row reason v i found = absurd i
  ledger_reports-In s ((j, row') ∷ m) k row reason v (inl here) found =
      let same_key : k ≡ j = ap (λ (x : Text × LedgerRow). x.0) here in
      let same_row : row ≡ row' = ap (λ (x : Text × LedgerRow). x.1) here in
      let found' : row_reason (some row') ≡ some reason =
        ap (λ x. row_reason (some x)) (sym same_row) ∙ found in
      rw (found', ledger_reports)
        (inl (
          rw same_key (
            ap (λ b. record { reason = reason; tuple_hash = j; has_state_tuple = some b })
              (sym (has-tuple_hash_bytes s j v)))))
  ledger_reports-In s ((j, row') ∷ m) k row reason v (inr i) found =
      go (row_reason (some row')) refl (ledger_reports-In s m k row reason v i found)
    where
      go :
          (r : Option Reason)
          → row_reason (some row') ≡ r
          → In (missed k reason) (ledger_reports p s m)
          → In (missed k reason) (ledger_reports p s ((j, row') ∷ m))
      go none same rest = rw (same, ledger_reports) rest
      go (some r) same rest = rw (same, ledger_reports) (inr rest)

  state_reports-In :
      (ledger : JsMap LedgerRow) (reports : List Report) (m : JsMap Entry) (r : Report)
      → In r reports
      → In r (state_reports p ledger reports m)
  unfolding state_reports
  state_reports-In ledger reports [] r i = i
  state_reports-In ledger reports ((k, e) ∷ m) r i =
      elim (Bool-cases (reported reports (p.to_hex (hash p e.tuple)))) [
        | inl known ↦ rw (known, state_reports) (state_reports-In ledger reports m r i)
        | inr new ↦
            let k' = p.to_hex (hash p e.tuple) in
            rw (new, state_reports)
              (state_reports-In ledger
                (reports ++ entry_reports k' e.tuple (row_reason (JsMap.get ledger k'))) m r
                ((In-append r reports _).1 (inl i)))
      ]

  -- In a well-formed state, every suspicious row of the ledger is reported with its reason, and the
  -- report says that the state has no tuple of its hash, also where the state has it; no report says
  -- that there is one.
  pub validate_misses :
      (s : StateVector) (ledger : JsMap LedgerRow) (k : Text) (row : LedgerRow) (reason : Reason)
      → IsState p s
      → In (k, row) ledger
      → row_reason (some row) ≡ some reason
      → In (missed k reason) (validate p s ledger)
        × All (λ r. r.has_state_tuple ≢ some true) (validate p s ledger)
  unfolding validate
  validate_misses s ledger k row reason v i found = (
    state_reports-In ledger (ledger_reports p s ledger) s.entries _
        (ledger_reports-In s ledger k row reason v i found),
    state_reports-Unmatched ledger (ledger_reports p s ledger) s.entries
        (ledger_reports-Unmatched s ledger v),
  )
