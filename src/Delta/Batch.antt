-- ===== src/Delta/Batch.antt =====
-- What a batch that delta.js receives can do to the state.
use dacar.Common.{
  ℕ, suc, ◌+◌, ◌≡◌, ◌≢◌, refl, sym, ap, subst, ◌∙◌, Bool, true, false, List, [], ◌∷◌, Option, none,
  some, Bytes, Result, ok, err, Failure, inl, inr, arith,
}
use dacar.Platform.{Platform}
use dacar.Value.{Value, bin, arr, to_list}
use dacar.Verifier.{Resolver}
use dacar.Crdt.{StateVector, Options}
use dacar.Crdt.Invariant.{IsState, update-IsState}
use dacar.Delta.{apply_payload, apply_payloads, apply_items, apply_decoded, counted}
use dacar.Delta.Receipt.{Applied, apply_payload_sound}

-- The number that is answered, or what is thrown.
abbrev pub count : ℕ → Option Failure → Result ℕ
count n none = ok n
count n (some e) = err e

-- The items of the array that a batch decodes to; anything else has none.
abbrev pub items_of : Result Value → List Value
items_of (ok (arr vs)) = to_list vs
items_of _ = []

module _ (p : Platform) (resolver : Resolver p) (options : Options) where
  -- The second state comes from the first by recording signed operations, one after the other, as
  -- many as the number says.
  pub data Received (s : StateVector) : StateVector → ℕ → Type 0 where
    nothing : Received s s 0
    more :
        {t u : StateVector} {n : ℕ} (payload : Bytes) (clock_ms : ℕ)
        → Received s t n
        → Applied p resolver options t u payload clock_ms
        → Received s u (suc n)

  -- A run of the loop over the items from a state, at the clock's readings in their order: the state
  -- it ends in, the number of operations recorded, and what it throws, if it throws. Each byte string
  -- is applied, refused without a change, or throws, which ends the loop; other items are passed over.
  pub data Trace
      : List Value → (ℕ → ℕ) → StateVector → StateVector → ℕ → Option Failure → Type 0 where
    ended : {clock : ℕ → ℕ} {s : StateVector} → Trace [] clock s s 0 none
    thrown :
        {items : List Value} {clock : ℕ → ℕ} {s : StateVector} (b : Bytes) (e : Failure)
        → apply_payload p resolver options s b (clock 0) ≡ err e
        → Trace (bin b ∷ items) clock s s 0 (some e)
    applied :
        {items : List Value} {clock : ℕ → ℕ} {s t u : StateVector} {n : ℕ} {stop : Option Failure}
        (b : Bytes)
        → Applied p resolver options s t b (clock 0)
        → Trace items (λ i. clock (suc i)) t u n stop
        → Trace (bin b ∷ items) clock s u (suc n) stop
    refused :
        {items : List Value} {clock : ℕ → ℕ} {s u : StateVector} {n : ℕ} {stop : Option Failure}
        (b : Bytes)
        → apply_payload p resolver options s b (clock 0) ≡ ok (false, s)
        → Trace items (λ i. clock (suc i)) s u n stop
        → Trace (bin b ∷ items) clock s u n stop
    passed :
        {items : List Value} {clock : ℕ → ℕ} {s u : StateVector} {n : ℕ} {stop : Option Failure}
        (v : Value)
        → ((b : Bytes) → v ≢ bin b)
        → Trace items (λ i. clock (suc i)) s u n stop
        → Trace (v ∷ items) clock s u n stop

  -- What the loop does from a count `n`, by a trace of its own.
  record Outcome (items : List Value) (clock : ℕ → ℕ) (s : StateVector) (n : ℕ)
      (r : Result ℕ × StateVector) : Type 0 where
    after : StateVector
    total : ℕ
    stop : Option Failure
    trace : Trace items clock s after total stop
    answer : r ≡ (count (n + total) stop, after)

  counted-Outcome :
      (items : List Value) (clock : ℕ → ℕ) (s : StateVector) (n : ℕ) (b : Bytes)
      (rest : StateVector → ℕ → Result ℕ × StateVector) (r : Result (Bool × StateVector))
      → ((t : StateVector) (m : ℕ) → Outcome items (λ i. clock (suc i)) t m (rest t m))
      → apply_payload p resolver options s b (clock 0) ≡ r
      → Outcome (bin b ∷ items) clock s n (counted p resolver options rest n r s)
  unfolding counted
  counted-Outcome items clock s n b rest (err e) h same = record {
    after = s;
    total = 0;
    stop = some e;
    trace = thrown b e same;
    answer = refl;
  }
  counted-Outcome items clock s n b rest (ok (true, t)) h same =
      elim (apply_payload_sound p resolver options s t b (clock 0) true same) [
        | inl (no', _) ↦ absurd (ground arith)
        | inr (_, v) ↦
            let o = h t (n + 1) in
            record {
              after = o.after;
              total = suc o.total;
              stop = o.stop;
              trace = applied b v o.trace;
              answer = o.answer ∙ ap (λ m. (count m o.stop, o.after)) (omega arith);
            }
      ]
  counted-Outcome items clock s n b rest (ok (false, t)) h same =
      elim (apply_payload_sound p resolver options s t b (clock 0) false same) [
        | inl (_, kept) ↦
            let o = h t n in
            record {
              after = o.after;
              total = o.total;
              stop = o.stop;
              trace = refused b (same ∙ ap (λ u. ok (false, u)) kept) (
                  subst (λ u. Trace items (λ i. clock (suc i)) u o.after o.total o.stop) kept
                    o.trace);
              answer = o.answer;
            }
        | inr (yes', _) ↦ absurd (ground arith)
      ]

  passed-Outcome :
      (items : List Value) (clock : ℕ → ℕ) (s : StateVector) (n : ℕ) (v : Value)
      (r : Result ℕ × StateVector)
      → ((b : Bytes) → v ≢ bin b)
      → Outcome items (λ i. clock (suc i)) s n r
      → Outcome (v ∷ items) clock s n r
  passed-Outcome items clock s n v r other o = record {
    after = o.after;
    total = o.total;
    stop = o.stop;
    trace = passed v other o.trace;
    answer = o.answer;
  }

  apply_items-Outcome :
      (items : List Value) (clock : ℕ → ℕ) (s : StateVector) (n : ℕ)
      → Outcome items clock s n (apply_items p resolver options items clock s n)
  unfolding apply_items
  apply_items-Outcome [] clock s n = record {
    after = s;
    total = 0;
    stop = none;
    trace = ended;
    answer = ap (λ m. (ok m, s)) (omega arith);
  }
  apply_items-Outcome (bin b ∷ items) clock s n =
      counted-Outcome items clock s n b _ _
        (λ t m. apply_items-Outcome items (λ i. clock (suc i)) t m) refl
  apply_items-Outcome (v ∷ items) clock s n =
      passed-Outcome items clock s n _ _ (λ b e. cc)
        (apply_items-Outcome items (λ i. clock (suc i)) s n)

  apply_decoded_lem :
      (s : StateVector) (clock : ℕ → ℕ) (r : Result Value)
      → apply_decoded p resolver options s clock r
        ≡ apply_items p resolver options (items_of r) clock s 0
  unfolding apply_decoded apply_items
  apply_decoded_lem s clock (ok (arr vs)) = refl
  apply_decoded_lem s clock _ = refl

  -- Whatever bytes arrive as a batch, the call visits the items that they decode to, each at its own
  -- reading of the clock. An item changes the state only if it holds an operation that is decoded,
  -- signed by its issuer's keyset and in time at that reading, which is then recorded. The call
  -- answers with the number of operations recorded, unless an item throws: then it throws the same
  -- and leaves the state with what was recorded before.
  pub apply_payloads_sound :
      (s : StateVector) (payload : Bytes) (clock : ℕ → ℕ)
      → (t : StateVector) × (n : ℕ) × (stop : Option Failure) × Trace
          (items_of (p.decode payload))
          clock
          s
          t
          n
          stop
        × (apply_payloads p resolver options s payload clock ≡ (count n stop, t))
  unfolding apply_payloads
  apply_payloads_sound s payload clock =
      let o = apply_items-Outcome (items_of (p.decode payload)) clock s 0 in
      (
        o.after,
        o.total,
        o.stop,
        o.trace,
        apply_decoded_lem s clock (p.decode payload)
            ∙ o.answer
            ∙ ap (λ m. (count m o.stop, o.after)) (omega arith),
      )

  Trace-Received :
      {items : List Value} {clock : ℕ → ℕ} {s t u : StateVector} {m n : ℕ} {stop : Option Failure}
      → Received s t m
      → Trace items clock t u n stop
      → Received s u (m + n)
  Trace-Received r ended = subst (Received _ _) (omega arith) r
  Trace-Received r (thrown b e same) = subst (Received _ _) (omega arith) r
  Trace-Received r (applied b v rest) =
      subst (Received _ _) (omega arith) (Trace-Received (more b _ r v) rest)
  Trace-Received r (refused b same rest) = Trace-Received r rest
  Trace-Received r (passed v other rest) = Trace-Received r rest

  count-answer : (n m : ℕ) (stop : Option Failure) → count n stop ≡ ok m → m ≡ n
  count-answer n m none e = cc
  count-answer n m (some f) e = cc

  -- The same without the items: the operations recorded, one after the other, and their number.
  pub apply_payloads-Received :
      (s : StateVector) (payload : Bytes) (clock : ℕ → ℕ)
      → (n : ℕ) × Received s (apply_payloads p resolver options s payload clock).1 n
        × ((m : ℕ) → (apply_payloads p resolver options s payload clock).0 ≡ ok m → m ≡ n)
  apply_payloads-Received s payload clock =
      let (t, n, stop, trace, answer) = apply_payloads_sound s payload clock in
      (
        n,
        subst (λ u. Received s u n) (ap (λ r. r.1) (sym answer))
            (subst (Received s t) (omega arith) (Trace-Received nothing trace)),
        λ m e. count-answer n m stop (ap (λ r. r.0) (sym answer) ∙ e),
      )

  -- What is received keeps the state well formed.
  pub Received-IsState : {s t : StateVector} {n : ℕ} → IsState p s → Received s t n → IsState p t
  Received-IsState v nothing = v
  Received-IsState v (more payload clock_ms r a) =
      rw (a.recorded) (update-IsState p _ a.operation (Received-IsState v r) a.well_formed.0)
