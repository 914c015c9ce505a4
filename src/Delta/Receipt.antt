-- ===== src/Delta/Receipt.antt =====
-- What one payload that delta.js receives can do to the state.
use dacar.Common.{
  ℕ, ◌≡◌, refl, Bool, true, false, Bytes, Result, ok, err, ◌⊎◌, inl, inr, some, arith,
}
use dacar.Platform.{Platform}
use dacar.Keyset.{IssuerKeyset}
use dacar.Operation.{Operation}
use dacar.Operation.Wire.{from_payload}
use dacar.Operation.Payload.{IsDelta, from_payload-IsDelta}
use dacar.Verifier.{Resolver, resolve_keyset, verify_operation}
use dacar.Verifier.Authentic.{SignedBy, verify_operation_sound}
use dacar.Crdt.{StateVector, Options, ingest, update}
use dacar.Crdt.Convergence.{apply_lem, accepted}
use dacar.Delta.{apply_payload, ingest_decoded}

module _ (p : Platform) (resolver : Resolver p) (options : Options) where
  -- The payload holds a well-formed operation that is signed by the keyset of its issuer and passes
  -- the intake tests, and the new state is the old one with this operation recorded.
  pub record Applied (s s' : StateVector) (payload : Bytes) (clock_ms : ℕ) : Type 0 where
    pub operation : Operation
    pub decoded : from_payload p payload ≡ ok operation
    pub well_formed : IsDelta operation
    pub keyset : IssuerKeyset
    pub resolved : resolve_keyset p resolver operation.tuple.issuer ≡ ok (some keyset)
    pub signed : SignedBy p operation keyset
    pub in_time : accepted s.deletion_horizon_days options clock_ms operation ≡ true
    pub recorded : s' ≡ update p s operation

  ingest_cases :
      (s s' : StateVector) (o : Operation) (clock_ms : ℕ) (applied : Bool)
      → IsDelta o
      → ingest p s o resolver options clock_ms ≡ ok (applied, s')
      → (applied ≡ false) × (s' ≡ s)
        ⊎ (applied ≡ true)
          × (verify_operation p o resolver ≡ ok true)
          × (accepted s.deletion_horizon_days options clock_ms o ≡ true)
          × (s' ≡ update p s o)
  unfolding ingest
  ingest_cases s s' o clock_ms applied v e =
      ground (arith, apply_lem p options clock_ms s o v.0.hlc)

  -- A payload whose call returns either changed nothing, and the answer is `false`, or the answer
  -- is `true` and it is applied: decoded, authenticated, in time and recorded.
  pub apply_payload_sound :
      (s s' : StateVector) (payload : Bytes) (clock_ms : ℕ) (applied : Bool)
      → apply_payload p resolver options s payload clock_ms ≡ ok (applied, s')
      → (applied ≡ false) × (s' ≡ s) ⊎ (applied ≡ true) × Applied s s' payload clock_ms
  unfolding apply_payload
  apply_payload_sound s s' payload clock_ms applied e = go (from_payload p payload) refl e
    where
      go :
          (r : Result Operation)
          → from_payload p payload ≡ r
          → ingest_decoded p resolver options s r clock_ms ≡ ok (applied, s')
          → (applied ≡ false) × (s' ≡ s) ⊎ (applied ≡ true) × Applied s s' payload clock_ms
      go (err f) same h = inl (cc, cc)
      go (ok o) same h =
          let v = from_payload-IsDelta p payload o same in
          elim (ingest_cases s s' o clock_ms applied v h) [
            | inl nothing ↦ inl nothing
            | inr (yes', verified, in_time, recorded) ↦
                let (keyset, resolved, signed) = verify_operation_sound p o resolver verified in
                inr (
                  yes',
                  record {
                    operation = o;
                    decoded = same;
                    well_formed = v;
                    keyset = keyset;
                    resolved = resolved;
                    signed = signed;
                    in_time = in_time;
                    recorded = recorded;
                  },
                )
          ]

  -- A payload of an authentic operation in time is applied.
  pub apply_payload_complete :
      (s : StateVector) (o : Operation) (payload : Bytes) (clock_ms : ℕ)
      → from_payload p payload ≡ ok o
      → verify_operation p o resolver ≡ ok true
      → accepted s.deletion_horizon_days options clock_ms o ≡ true
      → apply_payload p resolver options s payload clock_ms ≡ ok (true, update p s o)
  unfolding apply_payload ingest_decoded ingest
  apply_payload_complete s o payload clock_ms decoded authentic in_time =
      let v = from_payload-IsDelta p payload o decoded in
      rw (decoded, authentic) (rw (apply_lem p options clock_ms s o v.0.hlc, in_time) refl)
