-- ===== src/Tests/Commands.antt =====
-- The commands of cli/dacar.js that issue deltas and that ask what is allowed.
use dacar.Common.{
  All, ◌≡◌, ◌≢◌, refl, sym, ◌∙◌, subst, true, false, if◌then◌else◌, List, [], ◌∷◌, codes, map, none,
  ok, list_eq, In, arith,
}
use dacar.JsMap
use dacar.Platform.Sample.{sample, sample-IsHex, sample-IsPacking, sample-IsSigning, to_hex}
use dacar.Namespace.{
  NamespaceHasher, default_salt, covers, bytes_equal, hash_relation, hash_object, parse_object,
  truncate16,
}
use dacar.Tuple.{Tuple}
use dacar.Operation.{Operation, grant}
use dacar.Operation.Wire.{to_payload, from_payload}
use dacar.Operation.Payload.{IsOperation, from_payload-to_payload}
use dacar.Verifier.{keyring, resolve, has, forget}
use dacar.Crdt.{update, active_tuples, is_active_entry}
use dacar.Crdt.Convergence.{accepted}
use dacar.Config.{hashers}
use dacar.Delta.{apply_payload}
use dacar.Engine.{hypothesis}
use dacar.Engine.Chains.{Authority}
use dacar.Challenge.Exchange.{new_engine}
use dacar.Issue.{issue}
use dacar.Issue.Issued.{Issued, issue_sound}
use dacar.Issue.Received.{issue_received}
use dacar.Issue.Example
use dacar.Issue.Example.{args, node, noon, issued, grants_door, aliases}
use dacar.Alias
use dacar.Inputs.{resolve_identity_hash}
use dacar.Queries
use dacar.Queries.{
  Match, check, identity_forget, find_matching_tuples, matches_under, matches_with, match_kind,
}
use dacar.Queries.Issuers.{identity_forget_guarded}
use dacar.Queries.Listed.{Fits}
use dacar.Queries.Matching.{check_lists}
use dacar.Tests.Fixture.{signed, day, anchor, bob, alice, empty_state, at_day}
use dacar.Tests.Operations.{ring, ring_resolves}
use dacar.Tests.Exchanges.{client, open_door, allowed_here, salted}

issue_sound_example :
    Issued sample sample-IsHex sample-IsPacking sample-IsSigning args grant node issued
      (issue sample args grant noon noon [] node)
issue_sound_example =
    issue_sound sample sample-IsHex sample-IsPacking sample-IsSigning args grant noon noon [] node
      issued (omega arith) grants_door

issued-IsOperation : IsOperation (signed Example.open_door grant (day 310))
issued-IsOperation = record {
  tuple = record {
    relation = refl;
    grantee = refl;
    issuer = refl;
    count = omega arith;
    objects = (refl, tt);
  };
  hlc = omega arith;
  signatures = (sample-IsSigning.length-sign 1 _, tt);
}

encoded : to_payload sample (signed Example.open_door grant (day 310)) ≡ ok issued
unfolding to_payload
encoded = refl

ok-injective : {A : Type 0} {a b : A} → ok a ≡ ok b → a ≡ b
ok-injective e = cc

issued_decodes : from_payload sample issued ≡ ok (signed Example.open_door grant (day 310))
issued_decodes =
    let (data', made, read) =
      from_payload-to_payload sample (signed Example.open_door grant (day 310)) sample-IsPacking
        issued-IsOperation (λ e. cc) in
    subst (λ b. from_payload sample b ≡ ok (signed Example.open_door grant (day 310)))
      (ok-injective (sym made ∙ encoded)) read

in_time : (o : Operation) → from_payload sample issued ≡ ok o → accepted 180 (at_day 310) 0 o ≡ true
in_time o read =
    subst (λ o'. accepted 180 (at_day 310) 0 o' ≡ true) (ok-injective (sym issued_decodes ∙ read))
      (ground arith)

issue_received_example :
    (o : Operation) × (from_payload sample issued ≡ ok o)
    × (apply_payload sample (keyring ring) (at_day 310) empty_state issued 0
        ≡ ok (true, update sample empty_state o))
issue_received_example =
    issue_received sample sample-IsHex sample-IsPacking sample-IsSigning args grant noon noon []
      node 1 issued (keyring ring) (at_day 310) empty_state 0 (omega arith) refl grants_door
      ring_resolves in_time

forgets : identity_forget sample false anchor empty_state ring ≡ ok (record { keysets = [] })
unfolding identity_forget forget JsMap.delete list_eq to_hex active_tuples JsMap.has
forgets = refl

identity_forget_guarded_example :
    (false ≡ false → (t : Tuple) → In t (active_tuples empty_state) → t.issuer ≢ anchor)
    × (has sample ring anchor ≡ ok true)
    × (resolve sample (record { keysets = [] }) alice
        ≡ (if list_eq anchor alice then ok none else resolve sample ring alice))
identity_forget_guarded_example =
    identity_forget_guarded sample sample-IsHex false anchor alice empty_state ring
      (record { keysets = [] }) forgets refl

abbrev match : Match
match = record { kind = Queries.allow; tuple = open_door; hasher = record { salt = default_salt } }

door_allowed :
    check sample client.config client.state aliases (codes "door") (codes "open") (codes "bob")
    ≡ ok (true, match ∷ [])
unfolding check resolve_identity_hash Alias.resolve Alias.includes find_matching_tuples
    matches_under matches_with match_kind active_tuples is_active_entry covers bytes_equal
    hash_relation hash_object parse_object truncate16 list_eq
door_allowed = rw (salted, allowed_here) refl

check_lists_example :
    (hs : List NamespaceHasher) × (hashers client.config ≡ ok hs)
    × All (Fits sample client.state hs (codes "open") (codes "door") bob) (match ∷ [])
    × (m : Match) × In m (match ∷ [])
    × (m.tuple.relation_hash ≡ hash_relation sample m.hasher (codes "open"))
    × Authority sample
        (new_engine client.config client.state)
        (map
          (hypothesis sample (new_engine client.config client.state) (codes "door") (codes "open"))
          hs)
        m.tuple.issuer
unfolding resolve_identity_hash Alias.resolve Alias.includes list_eq
check_lists_example =
    check_lists sample sample-IsHex client.config client.state aliases (codes "door") (codes "open")
      (codes "bob") bob (match ∷ []) refl door_allowed
