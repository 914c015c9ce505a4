-- ===== src/Verifier/Authentic.antt =====
-- What a `true` of `verifyOperation` in verifier.js says.
use dacar.Common.{
  ◌≡◌, List, Option, none, some, ok, arith, length, map, All, In, true, ◌≤◌, >>=-eq-ok,
}
use dacar.Platform.{Platform}
use dacar.Value.{map_result}
use dacar.Keyset.{IssuerKeyset}
use dacar.Operation.{Operation, preimage, raw, as_identity, verify_keyset}
use dacar.Operation.Signed.{Validated, DistinctKeys, verify_threshold_sound}
use dacar.Verifier.{Resolver, resolve_keyset, verify_operation, verify_found}

module _ (p : Platform) where
  -- The operation carries as many signatures as the keyset's threshold, each valid under another
  -- of the keyset's keys.
  pub record SignedBy (o : Operation) (keyset : IssuerKeyset) : Type 0 where
    pub members : List p.Identity
    pub read : map_result (as_identity p) (map raw keyset.member_public_keys) ≡ ok members
    pub signers : List p.Identity
    pub are_members : All (λ i. In i members) signers
    pub distinct : DistinctKeys p signers
    pub valid : Validated p signers o.signatures (preimage o)
    pub count : length o.signatures ≡ keyset.threshold
    pub positive : 1 ≤ keyset.threshold

  verify_keyset-SignedBy :
      (o : Operation) (keyset : IssuerKeyset)
      → verify_keyset p o keyset ≡ ok true
      → SignedBy o keyset
  unfolding verify_keyset
  verify_keyset-SignedBy o keyset e =
      let (members, read, signers, are, distinct, valid, count, positive) =
        verify_threshold_sound p o (map raw keyset.member_public_keys) keyset.threshold e in
      record {
        members = members;
        read = read;
        signers = signers;
        are_members = are;
        distinct = distinct;
        valid = valid;
        count = count;
        positive = positive;
      }

  -- An operation passes only if its issuer resolves to a keyset by which it is signed.
  pub verify_operation_sound :
      (o : Operation) (resolver : Resolver p)
      → verify_operation p o resolver ≡ ok true
      → (keyset : IssuerKeyset) × (resolve_keyset p resolver o.tuple.issuer ≡ ok (some keyset))
        × SignedBy o keyset
  unfolding verify_operation verify_found
  verify_operation_sound o resolver e =
      let (found, resolved, verified) =
        >>=-eq-ok (resolve_keyset p resolver o.tuple.issuer) (verify_found p o) e in
      from_found found resolved verified
    where
      from_found :
          (found : Option IssuerKeyset)
          → resolve_keyset p resolver o.tuple.issuer ≡ ok found
          → verify_found p o found ≡ ok true
          → (keyset : IssuerKeyset) × (resolve_keyset p resolver o.tuple.issuer ≡ ok (some keyset))
            × SignedBy o keyset
      from_found none resolved verified = ground arith
      from_found (some keyset) resolved verified =
          (keyset, resolved, verify_keyset-SignedBy o keyset verified)

  -- An operation whose issuer resolves to a keyset by which it is signed passes.
  pub verify_operation_known :
      (o : Operation) (resolver : Resolver p) (keyset : IssuerKeyset)
      → resolve_keyset p resolver o.tuple.issuer ≡ ok (some keyset)
      → verify_keyset p o keyset ≡ ok true
      → verify_operation p o resolver ≡ ok true
  unfolding verify_operation verify_found
  verify_operation_known o resolver keyset resolved valid = rw resolved valid
