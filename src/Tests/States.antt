-- ===== src/Tests/States.antt =====
-- States of crdt.js, and what delta.js receives into them.
use dacar.Common.{
  Option, Failure, ℕ, ◌≡◌, ◌*◌, ◌-◌, ◌↔◌, ◌⊎◌, ◌+◌, refl, sym, ap, subst, List, true, false, [],
  ◌∷◌, arith, inl, inr, ok, some, Text, length, Bytes,
}
use dacar.JsMap
use dacar.Platform.Sample.{sample, sample-IsHex}
use dacar.Tuple.{key}
use dacar.Operation.{Operation, grant}
use dacar.Operation.Wire.{to_value}
use dacar.Verifier.{keyring}
use dacar.Crdt.{
  default_options, StateVector, apply, ingest, update, merge, prune, is_active, prunable, or_clock,
  deletion_horizon_ms, Entry, is_active_entry,
}
use dacar.Crdt.Stamps.{stamps_at}
use dacar.Crdt.Invariant.{IsState, here, next, applies, prunes, Reach-IsState}
use dacar.Crdt.Convergence.{Arrival, Taken, apply_all, apply_all_converges, apply_lem}
use dacar.Crdt.Merging.{SameEntries, merge_semilattice}
use dacar.Crdt.Pruning.{prune_exact, unless_dead}
use dacar.Crdt.Intake.{pruned_stays_dead}
use dacar.Delta.{apply_payload, apply_payloads, pack_payloads}
use dacar.Delta.Receipt.{Applied, apply_payload_sound}
use dacar.Delta.Batch.{Trace, items_of, count, apply_payloads_sound}
use dacar.Tests.Fixture.{
  light, light-IsTuple, ban-IsTuple, signed, ban, grant_light, revoke_light, empty_state, state_of,
  at_day, day,
}
use dacar.Tests.Operations.{
  grant_light-IsOperation, payload, payload_decodes, ring, grant_light_authentic,
}

empty-IsState : IsState sample empty_state
empty-IsState = record { unique = tt; entries = tt }

abbrev pub granted : StateVector
granted = update sample empty_state grant_light

grants : apply sample empty_state grant_light (at_day 310) 0 ≡ ok (true, granted)
unfolding update
grants = apply_lem sample (at_day 310) 0 empty_state grant_light (omega arith)

Reach-IsState_example : IsState sample (prune granted (some 0) 0).1
Reach-IsState_example = Reach-IsState sample empty-IsState (
    next (next here (applies grant_light (at_day 310) 0 true grant_light-IsOperation grants))
      (prunes (some 0) 0))

abbrev arrival : Operation → ℕ → Arrival
arrival o n = record { operation = o; clock_ms = n * 86400000 }

-- The grant comes first too early, and is refused, and then again.
abbrev early : List Arrival
early = arrival grant_light 298 ∷ arrival grant_light 300 ∷ arrival revoke_light 301 ∷ []

abbrev late : List Arrival
late = arrival revoke_light 310 ∷ arrival grant_light 311 ∷ []

abbrev TakenIn : List Arrival → Operation → Type 0
TakenIn = Taken 180 default_options

same_operation :
    (as' : List Arrival) (o o' : Operation) (c n : ℕ)
    → record { operation = o; clock_ms = c } ≡ arrival o' n
    → TakenIn as' o'
    → TakenIn as' o
same_operation as' o o' c n e h = subst (TakenIn as') (sym (ap (λ (a : Arrival). a.operation) e)) h

early-late : (o : Operation) → TakenIn early o ↔ TakenIn late o
early-late o = (forth, back)
  where
    forth : TakenIn early o → TakenIn late o
    forth (c, inl e, h) = same_operation late o grant_light c 298 e (_, inr (inl refl), refl)
    forth (c, inr (inl e), h) = same_operation late o grant_light c 300 e (_, inr (inl refl), refl)
    forth (c, inr (inr (inl e)), h) = same_operation late o revoke_light c 301 e (_, inl refl, refl)
    forth (c, inr (inr (inr i)), h) = absurd i

    back : TakenIn late o → TakenIn early o
    back (c, inl e, h) = same_operation early o revoke_light c 310 e (_, inr (inr (inl refl)), refl)
    back (c, inr (inl e), h) = same_operation early o grant_light c 311 e (_, inr (inl refl), refl)
    back (c, inr (inr i), h) = absurd i

apply_all_converges_example :
    let s = apply_all sample default_options empty_state early in
    let t = apply_all sample default_options empty_state late in
    (stamps_at s (key sample light) ≡ stamps_at t (key sample light))
    × (is_active s (key sample light) ≡ is_active t (key sample light))
apply_all_converges_example =
    apply_all_converges sample default_options default_options empty_state early late
      (key sample light) (omega arith, (omega arith, (omega arith, tt)))
      (omega arith, (omega arith, tt)) early-late

-- A grant and a later revocation of day 100, long before the horizon of day 310.
abbrev old_entry : Entry
old_entry = record { tuple = light; add_ts = some (day 100); remove_ts = some (day 101) }

abbrev pub old_state : StateVector
old_state = record empty_state { entries = (key sample light, old_entry) ∷ [] }

pub old-IsState : IsState sample old_state
old-IsState = record {
  unique = (tt, tt);
  entries = (
    record { tuple = light-IsTuple; keyed = refl; added = omega arith; removed = omega arith },
    tt,
  );
}

granted-IsState : IsState sample (state_of (light ∷ []))
granted-IsState = record {
  unique = (tt, tt);
  entries = (record { tuple = light-IsTuple; keyed = refl; added = omega arith; removed = tt }, tt);
}

banned-IsState : IsState sample (state_of (ban ∷ []))
banned-IsState = record {
  unique = (tt, tt);
  entries = (record { tuple = ban-IsTuple; keyed = refl; added = omega arith; removed = tt }, tt);
}

merge_semilattice_example :
    SameEntries (merge (state_of (light ∷ [])) old_state) (merge old_state (state_of (light ∷ [])))
    × SameEntries
        (merge (merge (state_of (light ∷ [])) old_state) (state_of (ban ∷ [])))
        (merge (state_of (light ∷ [])) (merge old_state (state_of (ban ∷ []))))
    × SameEntries (merge (state_of (light ∷ [])) (state_of (light ∷ []))) (state_of (light ∷ []))
    × ((merge (state_of (light ∷ [])) old_state).deletion_horizon_days ≡ 180)
merge_semilattice_example =
    merge_semilattice sample sample-IsHex (state_of (light ∷ [])) old_state (state_of (ban ∷ []))
      granted-IsState old-IsState banned-IsState

prune_exact_example :
    ((k : Text)
      → JsMap.get (prune old_state (some (310 * 86400000)) 0).1.entries k
        ≡ unless_dead
            (or_clock (some (310 * 86400000)) 0 - deletion_horizon_ms old_state)
            (JsMap.get old_state.entries k))
    × (n : ℕ) × ((prune old_state (some (310 * 86400000)) 0).0 ≡ ok n)
    × (length (prune old_state (some (310 * 86400000)) 0).1.entries + n ≡ length old_state.entries)
prune_exact_example = prune_exact sample old_state (some (310 * 86400000)) 0 old-IsState

old_prunable : prunable (310 * 86400000 - deletion_horizon_ms old_state) old_entry ≡ ok true
unfolding prunable is_active_entry dacar.Hlc.unpack_hlc
old_prunable = refl

abbrev old_grant : Operation
old_grant = signed light grant (day 100)

abbrev pub old_payload : Bytes
old_payload = sample.encode (to_value old_grant)

pruned_stays_dead_example : apply sample old_state old_grant (at_day 311) 0 ≡ ok (false, old_state)
pruned_stays_dead_example =
    pruned_stays_dead sample old_state old_entry old_grant (at_day 311) (310 * 86400000) 0 (day 100)
      (day 101) old_prunable refl refl (inl (omega arith)) (omega arith) (omega arith)

pub received :
    apply_payload sample (keyring ring) (at_day 310) empty_state payload 0 ≡ ok (true, granted)
unfolding apply_payload ingest
received = rw (payload_decodes, grant_light_authentic) grants

apply_payload_sound_example :
    (true ≡ false) × (granted ≡ empty_state)
    ⊎ (true ≡ true) × Applied sample (keyring ring) (at_day 310) empty_state granted payload 0
apply_payload_sound_example =
    apply_payload_sound sample (keyring ring) (at_day 310) empty_state granted payload 0 true
      received

abbrev batch : Bytes
batch = pack_payloads sample (payload ∷ payload ∷ [])

apply_payloads_sound_example :
    (t : StateVector) × (n : ℕ) × (stop : Option Failure) × Trace sample
      (keyring ring)
      (at_day 310)
      (items_of (sample.decode batch))
      (λ i. 0)
      empty_state
      t
      n
      stop
    × (apply_payloads sample (keyring ring) (at_day 310) empty_state batch (λ i. 0)
        ≡ (count n stop, t))
apply_payloads_sound_example =
    apply_payloads_sound sample (keyring ring) (at_day 310) empty_state batch (λ i. 0)
