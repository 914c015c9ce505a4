-- ===== src/Issue/Received.antt =====
-- From `grant` or `revoke` of cli/dacar.js on one node to delta.js on another.
use dacar.Common.{
  ℕ, ◌≤◌, ◌≡◌, ap, subst, ◌∙◌, sym, true, List, [], ◌∷◌, some, Bool, Bytes, arith, Result, ok,
}
use dacar.Platform.{Platform, IsHex, IsPacking, IsSigning}
use dacar.Value.{map_result}
use dacar.Hlc.{max_logical}
use dacar.Keyset.{IssuerKeyset}
use dacar.Tuple.{Tuple}
use dacar.Operation.{
  Operation, Action, preimage, as_identity, find_signer, match_signatures, set_has, set_add,
  verify_threshold, verify_keyset,
}
use dacar.Operation.Wire.{from_payload}
use dacar.Verifier.{Resolver, resolve_keyset}
use dacar.Crdt.{StateVector, Options, update}
use dacar.Crdt.Convergence.{accepted}
use dacar.Delta.{apply_payload}
use dacar.Delta.Receipt.{apply_payload_complete}
use dacar.Verifier.Authentic.{verify_operation_known}
use dacar.Issue.{Node, IssueArgs, issue}
use dacar.Issue.Issued.{signed, issue_sound}

some-injective : {A : Type 0} {a b : A} → some a ≡ some b → a ≡ b
some-injective e = cc

module _ (p : Platform) (hex : IsHex p) (packing : IsPacking p) (signing : IsSigning p) where
  -- The keyset that holds the public key of an identity.
  abbrev pub keyset_of : p.Identity → IssuerKeyset
  keyset_of i = record { member_public_keys = p.public_key i ∷ []; threshold = 1 }

  verify_keyset-signed :
      (tuple : Tuple) (action : Action) (hlc : ℕ) (i : p.Identity)
      → verify_keyset p (signed p hex packing signing tuple action hlc i) (keyset_of i) ≡ ok true
  unfolding verify_keyset verify_threshold map_result as_identity match_signatures find_signer
      set_has set_add preimage
  verify_keyset-signed tuple action hlc i = ground (
    arith,
    signing.from-public_key i,
    signing.length-sign i
        (preimage (record { tuple = tuple; action = action; hlc = hlc; signatures = [] })),
    signing.validate-sign i
        (preimage (record { tuple = tuple; action = action; hlc = hlc; signatures = [] })),
  )

  -- What one node has issued, another applies: if its resolver knows the issuer's public key and
  -- the time of the operation passes its intake tests, the payload is accepted and the operation
  -- recorded in its state.
  pub issue_received :
      (args : IssueArgs) (action : Action) (now_ms apply_ms : ℕ)
      (transports : List (List Bytes → Result (List Bool))) (n : Node p) (i : p.Identity)
      (payload : Bytes) (resolver : Resolver p) (options : Options) (s : StateVector) (clock_ms : ℕ)
      → n.clock.logical ≤ max_logical
      → n.identity ≡ some i
      → (issue p args action now_ms apply_ms transports n).0 ≡ ok payload
      → resolve_keyset p resolver (p.identity_hash i) ≡ ok (some (keyset_of i))
      → ((o : Operation)
          → from_payload p payload ≡ ok o
          → accepted s.deletion_horizon_days options clock_ms o ≡ true)
      → (o : Operation) × (from_payload p payload ≡ ok o)
        × (apply_payload p resolver options s payload clock_ms ≡ ok (true, update p s o))
  issue_received args action now_ms apply_ms transports n i payload resolver options s clock_ms fits
        named issued known in_time =
      let v =
        issue_sound p hex packing signing args action now_ms apply_ms transports n payload fits
          issued in
      let o = signed p hex packing signing v.tuple action v.hlc v.identity in
      let same : v.identity ≡ i = some-injective (sym v.named ∙ named) in
      let resolved : resolve_keyset p resolver v.tuple.issuer ≡ ok (some (keyset_of v.identity)) =
        subst (λ j. resolve_keyset p resolver v.tuple.issuer ≡ ok (some (keyset_of j))) (sym same)
          (ap (resolve_keyset p resolver) (v.ours ∙ ap p.identity_hash same) ∙ known) in
      let valid = verify_keyset-signed v.tuple action v.hlc v.identity in
      let authentic = verify_operation_known p o resolver (keyset_of v.identity) resolved valid in
      (
        o,
        v.decoded,
        apply_payload_complete p resolver options s o payload clock_ms v.decoded authentic
            (in_time o v.decoded),
      )
