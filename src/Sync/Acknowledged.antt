-- ===== src/Sync/Acknowledged.antt =====
-- What an acknowledged push of transport/rnsSync.js says about the node.
use dacar.Common.{
  ℕ, suc, ◌≤◌, ◌≡◌, ◌≢◌, refl, sym, ap, ◌∙◌, Bool, true, false, ◌==◌, if◌then◌else◌, list_eq_refl,
  [], ◌∷◌, Option, none, some, Bytes, codes, length, Result, ok, err, arith, inl, inr, Bool-cases,
}
use dacar.Platform.{Platform, IsPacking}
use dacar.Value.{Value, int, pos, bin, object, field, end}
use dacar.Verifier.{Resolver}
use dacar.Crdt.{StateVector, Options}
use dacar.Delta.{apply_payload, apply_payloads}
use dacar.Delta.Receipt.{apply_payload_sound}
use dacar.Delta.Batch.{Received, nothing, more, apply_payloads-Received}
use dacar.Sync.{
  pack_ack, unpack_ack, decoded_ack, count_of, member, response_ok, acknowledges, push_one,
  handle_push, after_single, caught, response, sync_request_handler,
}

some_bytes : (b : Bytes) → b ≢ [] → (length b == 0) ≡ false
some_bytes [] h = absurd (h refl)
some_bytes (x ∷ b) h = ground arith

module _ (p : Platform) (is_number : ℕ → Bool) where
  decoded_ack-pack :
      (n : ℕ)
      → IsPacking p
      → decoded_ack p is_number (p.decode (pack_ack p is_number n))
        ≡ (if is_number n then some n else none)
  unfolding pack_ack decoded_ack count_of member
  decoded_ack-pack n packing =
      rw (packing.decode-encode (object (field (codes "applied") (int (pos n)) end)))
        (rw (list_eq_refl (codes "applied")) refl)

  -- What a node packs is read back, if it is packed to at least a byte and as an integer that
  -- decodes to a `number`.
  pub unpack_ack-pack_ack :
      (n : ℕ)
      → IsPacking p
      → pack_ack p is_number n ≢ []
      → is_number n ≡ true
      → unpack_ack p is_number (pack_ack p is_number n) ≡ some n
  unfolding unpack_ack
  unpack_ack-pack_ack n packing written safe =
      ground (arith, decoded_ack-pack n packing, some_bytes (pack_ack p is_number n) written)

  -- No acknowledgement is read as another number than the one packed.
  unpack_ack-some :
      (n m : ℕ) → IsPacking p → unpack_ack p is_number (pack_ack p is_number n) ≡ some m → m ≡ n
  unfolding unpack_ack
  unpack_ack-some n m packing e = ground (arith, decoded_ack-pack n packing)

  -- How far what a handler counts is covered by what the state has received.
  record Counted (resolver : Resolver p) (options : Options) (s : StateVector)
      (r : Result ℕ × StateVector) : Type 0 where
    total : ℕ
    received : Received p resolver options s r.1 total
    bounded : (m : ℕ) → r.0 ≡ ok m → m ≤ total

  module _ (resolver : Resolver p) (options : Options) where
    caught-Counted :
        (s : StateVector) (r : Result ℕ × StateVector)
        → Counted resolver options s r
        → Counted resolver options s (caught p is_number resolver options r)
    unfolding caught
    caught-Counted s (err e, t) v = record {
      total = v.total;
      received = v.received;
      bounded = λ m h. ground arith;
    }
    caught-Counted s (ok n, t) v = v

    batch-Counted :
        (s : StateVector) (data' : Bytes) (clock : ℕ → ℕ)
        → Counted resolver options s (apply_payloads p resolver options s data' clock)
    batch-Counted s data' clock =
        let (n, received, counted) = apply_payloads-Received p resolver options s data' clock in
        record { total = n; received = received; bounded = λ m h. omega (arith, counted m h) }

    after_single-Counted :
        (s : StateVector) (data' : Bytes) (clock : ℕ → ℕ) (r : Result (Bool × StateVector))
        → apply_payload p resolver options s data' (clock 0) ≡ r
        → Counted resolver options s (after_single p is_number resolver options s data' clock r)
    unfolding after_single
    after_single-Counted s data' clock (err e) same = record {
      total = 0;
      received = nothing;
      bounded = λ m h. cc;
    }
    after_single-Counted s data' clock (ok (true, t)) same =
        elim (apply_payload_sound p resolver options s t data' (clock 0) true same) [
          | inl (no', _) ↦ absurd (ground arith)
          | inr (_, applied) ↦ record {
            total = 1;
            received = more data' (clock 0) nothing applied;
            bounded = λ m h. ground arith;
          }
        ]
    after_single-Counted s data' clock (ok (false, t)) same =
        elim (apply_payload_sound p resolver options s t data' (clock 0) false same) [
          | inl (_, kept) ↦
              rw kept (caught-Counted s _ (batch-Counted s data' (λ i. clock (suc i))))
          | inr (yes', _) ↦ absurd (ground arith)
        ]

    handle_push-Counted :
        (s : StateVector) (data' : Bytes) (clock : ℕ → ℕ)
        → Counted resolver options s (handle_push p is_number resolver options s data' clock)
    unfolding handle_push
    handle_push-Counted s data' clock = elim (Bool-cases (length data' == 0)) [
      | inl empty ↦
          rw empty (record { total = 0; received = nothing; bounded = λ m h. ground arith })
      | inr some' ↦ rw some' (after_single-Counted s data' clock _ refl)
    ]

    -- Whatever bytes are pushed to a node, the state changes only by signed operations that are
    -- recorded one after the other, also where the call throws, and the number that the call
    -- returns is at most the number of these operations.
    pub handle_push_sound :
        (s : StateVector) (data' : Bytes) (clock : ℕ → ℕ)
        → (n : ℕ) × Received p resolver options s
            (handle_push p is_number resolver options s data' clock).1
            n
          × ((m : ℕ) → (handle_push p is_number resolver options s data' clock).0 ≡ ok m → m ≤ n)
    handle_push_sound s data' clock =
        let v = handle_push-Counted s data' clock in (v.total, v.received, v.bounded)

    response-some :
        (r : Result ℕ × StateVector) (b : Bytes)
        → (response p is_number resolver options r).0 ≡ some b
        → (m : ℕ) × (r.0 ≡ ok m) × (b ≡ pack_ack p is_number m)
    unfolding response
    response-some (ok m, s) b h = (m, refl, ground arith)
    response-some (err e, s) b h = cc

    response-state :
        (r : Result ℕ × StateVector) → (response p is_number resolver options r).1 ≡ r.1
    unfolding response
    response-state (ok m, s) = refl
    response-state (err e, s) = refl

    acknowledges-true :
        (o : Option ℕ) → acknowledges p is_number o ≡ true → (m : ℕ) × (o ≡ some m) × (1 ≤ m)
    unfolding acknowledges
    acknowledges-true none h = cc
    acknowledges-true (some m) h = (m, refl, ground arith)

    response_ok-true :
        (r : Result Value)
        → response_ok p is_number r ≡ true
        → (b : Bytes) × (m : ℕ) × (r ≡ ok (bin b)) × (unpack_ack p is_number b ≡ some m) × (1 ≤ m)
    unfolding response_ok
    response_ok-true (ok (bin b)) h =
        let (m, acked, positive) = acknowledges-true (unpack_ack p is_number b) h in
        (b, m, refl, acked, positive)
    response_ok-true _ h = cc

    -- If every byte string that the link answers a request with is what the node's handler
    -- returned for that payload, a push that reports success has made the node record at least one
    -- signed operation.
    pub push_one_acknowledged :
        (s : StateVector) (payload : Bytes) (clock : ℕ → ℕ) (request : Bytes → Result Value)
        → IsPacking p
        → ((b : Bytes)
            → request payload ≡ ok (bin b)
            → (sync_request_handler p is_number resolver options s payload clock).0 ≡ some b)
        → push_one p is_number request payload ≡ true
        → (n : ℕ) × (1 ≤ n)
          × Received p resolver options s
              (sync_request_handler p is_number resolver options s payload clock).1
              n
    unfolding push_one sync_request_handler
    push_one_acknowledged s payload clock request packing delivers h =
        let (b, m, answered, acked, positive) = response_ok-true (request payload) h in
        let v = handle_push-Counted s payload clock in
        let (k, counted, packed) =
          response-some (handle_push p is_number resolver options s payload clock) b
            (delivers b answered) in
        let same : m ≡ k =
          unpack_ack-some k m packing (ap (unpack_ack p is_number) (sym packed) ∙ acked) in
        (
          v.total,
          omega (arith, v.bounded k counted),
          rw (response-state (handle_push p is_number resolver options s payload clock)) v.received,
        )
