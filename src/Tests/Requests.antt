-- ===== src/Tests/Requests.antt =====
-- Requests to the engine of engine.js.
use dacar.Common.{◌≡◌, refl, true, false, List, [], ◌∷◌, arith, All, In, inl, inr, list_eq}
use dacar.Platform.Sample.{sample, sample-IsHex, to_hex}
use dacar.Namespace.{bytes_equal, covers}
use dacar.Tuple.{Tuple}
use dacar.Crdt.{active_tuples, is_active_entry}
use dacar.Config.{is_root_anchor, set_has}
use dacar.Engine
use dacar.Engine.{evaluate_hashes, Hypothesis}
use dacar.Engine.Chains.{Matches, Granted}
use dacar.Engine.Soundness.{evaluate_hashes_sound}
use dacar.Engine.Verdicts.{root_denial_wins}
use dacar.Engine.Grants.{root_grant_allows, Spares}
use dacar.Tests.Fixture.{
  light, delegated_light, administration, ban, bob, anchor, engine_on, request,
}

light-Matches :
    Matches (engine_on (light ∷ [])) bob request.allow_relation_hash request.object_hashes light
unfolding active_tuples is_active_entry
light-Matches = record { active = inl refl; holder = refl; names = refl; covering = (_, refl) }

ban-Matches :
    Matches (engine_on (ban ∷ light ∷ [])) bob request.deny_relation_hash request.object_hashes ban
unfolding active_tuples is_active_entry
ban-Matches = record { active = inl refl; holder = refl; names = refl; covering = (_, refl) }

anchored : (ts : List Tuple) → is_root_anchor sample (engine_on ts).config anchor ≡ true
unfolding is_root_anchor set_has list_eq to_hex
anchored ts = refl

no_bans :
    (u : Tuple)
    → In u (active_tuples (engine_on (light ∷ [])).state)
    → u.grantee ≡ bob
    → All (Spares u) (request ∷ [])
unfolding active_tuples is_active_entry bytes_equal
no_bans u (inl same) holder = rw same (refl, tt)
no_bans u (inr i) holder = absurd i

delegation_allows :
    evaluate_hashes sample (engine_on (delegated_light ∷ administration ∷ [])) bob (request ∷ [])
    ≡ true
unfolding evaluate_hashes Engine.resolve_at Engine.resolve_with Engine.authority_with Engine.known
    Engine.remember Engine.consider Engine.consider_hypotheses Engine.consider_all Engine.candidates
    active_tuples is_active_entry Engine.begin Engine.memo_key Engine.object_key
    Engine.salted_objects Engine.joined is_root_anchor set_has bytes_equal covers list_eq to_hex
    Engine.admin_hypothesis
delegation_allows = refl

evaluate_hashes_sound_example :
    Granted sample
      (engine_on (delegated_light ∷ administration ∷ []))
      (request ∷ [])
      (request ∷ [])
      bob
evaluate_hashes_sound_example =
    evaluate_hashes_sound sample sample-IsHex (engine_on (delegated_light ∷ administration ∷ []))
      (request ∷ []) bob delegation_allows

root_denial_wins_example :
    evaluate_hashes sample (engine_on (ban ∷ light ∷ [])) bob (request ∷ []) ≡ false
root_denial_wins_example =
    root_denial_wins sample (engine_on (ban ∷ light ∷ [])) bob (request ∷ []) request ban (inl refl)
      ban-Matches (anchored (ban ∷ light ∷ []))

root_grant_allows_example :
    evaluate_hashes sample (engine_on (light ∷ [])) bob (request ∷ []) ≡ true
root_grant_allows_example =
    root_grant_allows sample (engine_on (light ∷ [])) bob (request ∷ []) request light sample-IsHex
      (omega arith) no_bans (inl refl) light-Matches (anchored (light ∷ []))
