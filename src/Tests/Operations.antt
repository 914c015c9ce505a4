-- ===== src/Tests/Operations.antt =====
-- Signed operations of operation.js and verifier.js.
use dacar.Common.{
  ℕ, sym, ◌∙◌, ◌≡◌, ◌≢◌, ◌≤◌, refl, Bytes, true, List, [], ◌∷◌, arith, All, In, inl, inr, ok, some,
  length, map, list_eq,
}
use dacar.JsMap
use dacar.Platform.Sample.{
  sample, sample-IsHex, sample-IsPacking, sample-IsSigning, from_public_key, to_hex,
}
use dacar.Value.{map_result}
use dacar.Tuple.{concat}
use dacar.Operation.{
  grant, preimage, raw, as_identity, key_hex, verify_threshold, verify_keyset, find_signer,
  match_signatures, set_has, set_add, big_endian,
}
use dacar.Operation.Signed.{Validated, DistinctKeys, verify_threshold_sound}
use dacar.Operation.Signing.{verify_threshold_complete}
use dacar.Operation.Wire.{to_payload, from_payload, to_value}
use dacar.Operation.Payload.{IsOperation, IsDelta, from_payload-to_payload, from_payload-IsDelta}
use dacar.Operation.Preimages.{preimage-injective_signed}
use dacar.Verifier.{Keyring, keyring, resolve_keyset, verify_operation}
use dacar.Tests.Fixture.{anchor, light, grant_light, keyset, light-IsTuple, day}

pub grant_light-IsOperation : IsOperation grant_light
grant_light-IsOperation = record {
  tuple = light-IsTuple;
  hlc = omega arith;
  signatures = (sample-IsSigning.length-sign 1 _, tt);
}

grant_light_verifies :
    verify_threshold sample grant_light (map raw keyset.member_public_keys) 1 ≡ ok true
unfolding verify_threshold match_signatures find_signer set_has set_add as_identity key_hex
    map_result preimage big_endian concat from_public_key to_hex list_eq
grant_light_verifies = refl

verify_threshold_sound_example :
    (members : List ℕ) × (map_result (as_identity sample) (map raw keyset.member_public_keys)
      ≡ ok members)
    × (signers : List ℕ) × All (λ i. In i members) signers
    × DistinctKeys sample signers
    × Validated sample signers grant_light.signatures (preimage grant_light)
    × (length grant_light.signatures ≡ 1)
    × (1 ≤ 1)
verify_threshold_sound_example =
    verify_threshold_sound sample grant_light (map raw keyset.member_public_keys) 1
      grant_light_verifies

verify_threshold_complete_example :
    verify_threshold sample grant_light (map raw keyset.member_public_keys) 1 ≡ ok true
unfolding map_result as_identity from_public_key preimage
verify_threshold_complete_example =
    verify_threshold_complete sample sample-IsHex grant_light (map raw keyset.member_public_keys) 1
      (1 ∷ []) (1 ∷ []) refl (inl refl, tt) (tt, tt)
      (
        sample-IsSigning.validate-sign 1 (preimage grant_light),
        (λ j i v. only_one j i),
        sample-IsSigning.length-sign 1 (preimage grant_light),
        tt,
      )
      (omega arith) (omega arith) refl
  where
    only_one : (j : ℕ) → In j (1 ∷ []) → sample.public_key j ≡ sample.public_key 1
    only_one j (inl e) = rw e
    only_one j (inr i) = absurd i

from_payload-to_payload_example :
    (data' : Bytes) × (to_payload sample grant_light ≡ ok data')
    × (from_payload sample data' ≡ ok grant_light)
from_payload-to_payload_example =
    from_payload-to_payload sample grant_light sample-IsPacking grant_light-IsOperation (λ e. cc)

one_signature : grant_light.signatures ≢ []
one_signature e = cc

abbrev pub payload : Bytes
payload = sample.encode (to_value grant_light)

ok-injective : {a b : Bytes} → ok a ≡ ok b → a ≡ b
ok-injective e = cc

pub payload_decodes : from_payload sample payload ≡ ok grant_light
unfolding to_payload
payload_decodes =
    let (data', made, read) =
      from_payload-to_payload sample grant_light sample-IsPacking grant_light-IsOperation
        one_signature in
    let encoded : to_payload sample grant_light ≡ ok payload = refl in
    let same : payload ≡ data' = ok-injective (sym encoded ∙ made) in rw same read

from_payload-IsDelta_example : IsDelta grant_light
from_payload-IsDelta_example = from_payload-IsDelta sample payload grant_light payload_decodes

preimage-injective_signed_example : (light ≡ light) × (grant ≡ grant) × (grant_light.hlc ≡ day 300)
preimage-injective_signed_example =
    preimage-injective_signed grant_light grant_light grant_light-IsOperation
      grant_light-IsOperation refl

-- A keyring in which the anchor is the identity 1.
abbrev pub ring : Keyring
ring = record { keysets = (sample.to_hex anchor, keyset) ∷ [] }

pub ring_resolves : resolve_keyset sample (keyring ring) anchor ≡ ok (some keyset)
unfolding resolve_keyset JsMap.get list_eq to_hex
ring_resolves = refl

pub grant_light_authentic : verify_operation sample grant_light (keyring ring) ≡ ok true
unfolding verify_operation verify_keyset resolve_keyset JsMap.get list_eq to_hex verify_threshold
    match_signatures find_signer set_has set_add as_identity key_hex map_result preimage big_endian
    concat from_public_key
grant_light_authentic = refl
