-- ===== src/Lxmf/Handled.antt =====
-- What a message that transport/lxmfSync.js handles does to the state.
use dacar.Common.{
  ℕ, suc, ◌≡◌, refl, ap, subst, ◌∙◌, Bool, true, false, ◌&&◌, ◌||◌, ltb, if◌then◌else◌, list_eq,
  List, [], ◌∷◌, map, Option, none, some, Bytes, Result, ok, err, Failure, arith, inl, inr,
  Bool-cases,
}
use dacar.Platform.{Platform}
use dacar.Value.{bin}
use dacar.Naming.{lxmf_delivery_title, lxmf_batch_title}
use dacar.Verifier.{Resolver}
use dacar.Crdt.{StateVector, Options}
use dacar.Delta.{apply_payload}
use dacar.Delta.Receipt.{apply_payload_sound}
use dacar.Delta.Batch.{Trace, ended, thrown, applied, refused}
use dacar.Lxmf.{
  Message, message_title, message_content, decode_batch, noted, apply_each, batch_applied,
  single_applied, handle_message,
}

and_false : (a : Bool) → (a && false) ≡ false
and_false a = ground arith

-- Whether anything was recorded, or what is thrown.
abbrev pub answered : Bool → Option Failure → Result Bool
answered any none = ok any
answered any (some e) = err e

abbrev pub or_none : Result (List Bytes) → List Bytes
or_none (ok bs) = bs
or_none (err e) = []

module _ (p : Platform) where
  -- The deltas of a message: its content, or the elements of the batch that its content decodes to;
  -- a message with another title carries none.
  abbrev pub carried : Option Message → List Bytes
  carried message =
      if list_eq (message_title p message) lxmf_batch_title
      then or_none (decode_batch p (message_content p message))
      else if list_eq (message_title p message) lxmf_delivery_title
      then message_content p message ∷ []
      else []

module _ (p : Platform) (options : Options) (resolver : Resolver p) where
  -- What a call does with deltas, where `any` says whether one was recorded before.
  record Outcome (bs : List Bytes) (clock : ℕ → ℕ) (s : StateVector) (any : Bool)
      (r : Result Bool × StateVector) : Type 0 where
    after : StateVector
    total : ℕ
    stop : Option Failure
    trace : Trace p resolver options (map bin bs) clock s after total stop
    answer : r ≡ (answered (any || ltb 0 total) stop, after)

  noted-Outcome :
      (bs : List Bytes) (clock : ℕ → ℕ) (s : StateVector) (any : Bool) (b : Bytes)
      (rest : StateVector → Bool → Result Bool × StateVector) (r : Result (Bool × StateVector))
      → ((t : StateVector) (c : Bool) → Outcome bs (λ i. clock (suc i)) t c (rest t c))
      → apply_payload p resolver options s b (clock 0) ≡ r
      → Outcome (b ∷ bs) clock s any (noted p options rest any r s)
  unfolding noted
  noted-Outcome bs clock s any b rest (err e) h same = record {
    after = s;
    total = 0;
    stop = some e;
    trace = thrown b e same;
    answer = refl;
  }
  noted-Outcome bs clock s any b rest (ok (true, t)) h same =
      elim (apply_payload_sound p resolver options s t b (clock 0) true same) [
        | inl (no', _) ↦ absurd (ground arith)
        | inr (_, v) ↦
            let o = h t (any || true) in
            record {
              after = o.after;
              total = suc o.total;
              stop = o.stop;
              trace = applied b v o.trace;
              answer = o.answer ∙ ap (λ c. (answered c o.stop, o.after)) (ground arith);
            }
      ]
  noted-Outcome bs clock s any b rest (ok (false, t)) h same =
      elim (apply_payload_sound p resolver options s t b (clock 0) false same) [
        | inl (_, kept) ↦
            let o = h t (any || false) in
            record {
              after = o.after;
              total = o.total;
              stop = o.stop;
              trace = refused b (same ∙ ap (λ u. ok (false, u)) kept) (
                  subst
                    (λ u.
                      Trace p resolver options (map bin bs) (λ i. clock (suc i)) u o.after o.total
                        o.stop)
                    kept o.trace);
              answer = o.answer ∙ ap (λ c. (answered c o.stop, o.after)) (ground arith);
            }
        | inr (yes', _) ↦ absurd (ground arith)
      ]

  apply_each-Outcome :
      (bs : List Bytes) (clock : ℕ → ℕ) (s : StateVector) (any : Bool)
      → Outcome bs clock s any (apply_each p options resolver bs clock s any)
  unfolding apply_each
  apply_each-Outcome [] clock s any = record {
    after = s;
    total = 0;
    stop = none;
    trace = ended;
    answer = ap (λ c. (ok c, s)) (ground arith);
  }
  apply_each-Outcome (b ∷ bs) clock s any =
      noted-Outcome bs clock s any b _ _ (λ t c. apply_each-Outcome bs (λ i. clock (suc i)) t c)
        refl

  untouched : (clock : ℕ → ℕ) (s : StateVector) → Outcome [] clock s false (ok false, s)
  untouched clock s = record { after = s; total = 0; stop = none; trace = ended; answer = refl }

  batch_applied-Outcome :
      (clock : ℕ → ℕ) (s : StateVector) (r : Result (List Bytes))
      → Outcome (or_none r) clock s false (batch_applied p options resolver clock s r)
  unfolding batch_applied
  batch_applied-Outcome clock s (err e) = untouched clock s
  batch_applied-Outcome clock s (ok bs) = apply_each-Outcome bs clock s false

  single_applied_lem :
      (clock : ℕ → ℕ) (s : StateVector) (b : Bytes) (r : Result (Bool × StateVector))
      → apply_payload p resolver options s b (clock 0) ≡ r
      → single_applied p options s r ≡ apply_each p options resolver (b ∷ []) clock s false
  unfolding single_applied apply_each noted
  single_applied_lem clock s b (err e) same = rw same refl
  single_applied_lem clock s b (ok (any, t)) same = rw same refl

  -- A delivery with a receiver handles a message by visiting the deltas that its title says it
  -- carries, each at its own reading of the clock: a delta changes the state only if it is decoded,
  -- signed by its issuer's keyset and in time at that reading, and is then recorded. The call answers
  -- whether one was recorded, unless a delta throws: then it throws the same and leaves the state with
  -- what was recorded before.
  pub handle_message_sound :
      (message : Option Message) (clock : ℕ → ℕ) (s : StateVector)
      → (t : StateVector) × (n : ℕ) × (stop : Option Failure) × Trace p resolver options
          (map bin (carried p message))
          clock
          s
          t
          n
          stop
        × (handle_message p options (some resolver) message clock s ≡ (answered (ltb 0 n) stop, t))
  unfolding handle_message
  handle_message_sound message clock s =
      let o = whole in (o.after, o.total, o.stop, o.trace, o.answer)
    where
      whole :
          Outcome
            (carried p message)
            clock
            s
            false
            (handle_message p options (some resolver) message clock s)
      whole = elim (Bool-cases (list_eq (message_title p message) lxmf_batch_title)) [
        | inl batch ↦
            rw (batch, and_false)
              (batch_applied-Outcome clock s (decode_batch p (message_content p message)))
        | inr other ↦ elim (Bool-cases (list_eq (message_title p message) lxmf_delivery_title)) [
          | inl delta ↦
              rw (other, delta)
                (rw (single_applied_lem clock s (message_content p message) _ refl)
                  (apply_each-Outcome (message_content p message ∷ []) clock s false))
          | inr neither ↦ rw (other, neither) (untouched clock s)
        ]
      ]
