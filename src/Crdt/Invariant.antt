-- ===== src/Crdt/Invariant.antt =====
-- The well-formedness of the state of crdt.js, which every operation keeps.
use dacar.Common.{
  ℕ, ◌≤◌, ◌≡◌, ◌≢◌, refl, subst, Bool, true, false, [], ◌∷◌, inl, inr, Option, none, some, Text,
  arith, Result, ok, err, Bool-cases,
}
use dacar.JsMap.{JsMap}
use dacar.JsMap
use dacar.JsMap.Keys.{UniqueKeys, AllEntries, set-UniqueKeys, set-AllEntries, get-AllEntries}
use dacar.Platform.{Platform}
use dacar.Hlc.{max_hlc}
use dacar.Tuple.{Tuple, key}
use dacar.Tuple.Preimage.{IsTuple}
use dacar.Operation.{Operation, Action, grant, revoke}
use dacar.Operation.Payload.{IsOperation}
use dacar.Crdt.{
  StateVector, Entry, Options, entry_or_new, stamp, max_ts, max_both, update, apply, merge,
  merge_entries, merge_entry, prune, prune_entries, prunable, prune_step,
}
use dacar.Crdt.Convergence.{apply_lem, accepted}

abbrev pub InRange : Option ℕ → Type 0
InRange none = Unit
InRange (some t) = t ≤ max_hlc

module _ (p : Platform) where
  -- An entry stands under its tuple's key, and its times fit 64 bits.
  pub record IsEntry (k : Text) (e : Entry) : Type 0 where
    pub tuple : IsTuple e.tuple
    pub keyed : k ≡ key p e.tuple
    pub added : InRange e.add_ts
    pub removed : InRange e.remove_ts

  pub record IsState (s : StateVector) : Type 0 where
    pub unique : UniqueKeys s.entries
    pub entries : AllEntries IsEntry s.entries

  IsEntry-new : (t : Tuple) → IsTuple t → IsEntry (key p t) (entry_or_new none t)
  IsEntry-new t v = record { tuple = v; keyed = refl; added = tt; removed = tt }

  InRange-max_ts : (a : Option ℕ) (t : ℕ) → InRange a → t ≤ max_hlc → max_ts a t ≤ max_hlc
  unfolding max_ts
  InRange-max_ts a t h k = ground arith

  stamp-IsEntry :
      (k : Text) (e : Entry) (a : Action) (hlc : ℕ)
      → IsEntry k e
      → hlc ≤ max_hlc
      → IsEntry k (stamp e a hlc)
  stamp-IsEntry k e grant hlc v h = record {
    tuple = v.tuple;
    keyed = v.keyed;
    added = InRange-max_ts e.add_ts hlc v.added h;
    removed = v.removed;
  }
  stamp-IsEntry k e revoke hlc v h = record {
    tuple = v.tuple;
    keyed = v.keyed;
    added = v.added;
    removed = InRange-max_ts e.remove_ts hlc v.removed h;
  }

  found-IsEntry :
      (m : JsMap Entry) (t : Tuple) (found : Option Entry)
      → AllEntries IsEntry m
      → IsTuple t
      → JsMap.get m (key p t) ≡ found
      → IsEntry (key p t) (entry_or_new found t)
  found-IsEntry m t none all v e = IsEntry-new t v
  found-IsEntry m t (some x) all v e = get-AllEntries IsEntry m (key p t) x all e

  pub update-IsState :
      (s : StateVector) (o : Operation) → IsState s → IsOperation o → IsState (update p s o)
  unfolding update
  update-IsState s o v w = record {
    unique = set-UniqueKeys s.entries _ _ v.unique;
    entries = set-AllEntries IsEntry s.entries _ _ v.entries (
        stamp-IsEntry _ _ o.action o.hlc (found-IsEntry s.entries o.tuple _ v.entries w.tuple refl)
          w.hlc);
  }

  apply-IsState :
      (s s' : StateVector) (o : Operation) (options : Options) (clock_ms : ℕ) (applied : Bool)
      → IsState s
      → IsOperation o
      → apply p s o options clock_ms ≡ ok (applied, s')
      → IsState s'
  apply-IsState s s' o options clock_ms applied v w e =
      elim (Bool-cases (accepted s.deletion_horizon_days options clock_ms o)) [
        | inl pass ↦
            subst IsState (cc (rw (apply_lem p options clock_ms s o w.hlc, pass) at e))
              (update-IsState s o v w)
        | inr fail ↦ subst IsState (cc (rw (apply_lem p options clock_ms s o w.hlc, fail) at e)) v
      ]

  InRange-max_both : (a b : Option ℕ) → InRange a → InRange b → InRange (max_both a b)
  unfolding max_both
  InRange-max_both a b h k = ground arith

  merged-IsEntry :
      (k : Text) (e other : Entry)
      → IsEntry k e
      → IsEntry k other
      → IsEntry k (record e {
        add_ts = max_both e.add_ts other.add_ts;
        remove_ts = max_both e.remove_ts other.remove_ts;
      })
  merged-IsEntry k e other v w = record {
    tuple = v.tuple;
    keyed = v.keyed;
    added = InRange-max_both e.add_ts other.add_ts v.added w.added;
    removed = InRange-max_both e.remove_ts other.remove_ts v.removed w.removed;
  }

  or_new-IsEntry :
      (m : JsMap Entry) (k : Text) (other : Entry) (found : Option Entry)
      → AllEntries IsEntry m
      → IsEntry k other
      → JsMap.get m k ≡ found
      → IsEntry k (entry_or_new found other.tuple)
  or_new-IsEntry m k other none all v e = record {
    tuple = v.tuple;
    keyed = v.keyed;
    added = tt;
    removed = tt;
  }
  or_new-IsEntry m k other (some x) all v e = get-AllEntries IsEntry m k x all e

  merge_entries-valid :
      (m others : JsMap Entry)
      → UniqueKeys m × AllEntries IsEntry m
      → AllEntries IsEntry others
      → UniqueKeys (merge_entries m others) × AllEntries IsEntry (merge_entries m others)
  unfolding merge_entries
  merge_entries-valid m [] v w = v
  merge_entries-valid m ((k, e) ∷ others) v w =
      merge_entries-valid (merge_entry m k e) others
        (
          set-UniqueKeys m k _ v.0,
          set-AllEntries IsEntry m k _ v.1
              (merged-IsEntry k _ e (or_new-IsEntry m k e _ v.1 w.0 refl) w.0),
        )
        w.1

  merge-IsState : (s other : StateVector) → IsState s → IsState other → IsState (merge s other)
  unfolding merge
  merge-IsState s other v w =
      let (unique, entries) =
        merge_entries-valid s.entries other.entries (v.unique, v.entries) w.entries in
      record { unique = unique; entries = entries }

  -- What is kept is a part of what was there.
  prune_step-AllEntries :
      (P : Text → Entry → Type 0) (k : Text) (e : Entry) (r : Result Bool)
      (rest : Result ℕ × JsMap Entry) (m : JsMap Entry)
      → P k e
      → AllEntries P m
      → AllEntries P rest.1
      → AllEntries P (prune_step k e r rest m).1
  unfolding prune_step
  prune_step-AllEntries P k e (err f) rest m here old kept = (here, old)
  prune_step-AllEntries P k e (ok false) rest m here old kept = (here, kept)
  prune_step-AllEntries P k e (ok true) rest m here old kept = kept

  prune_entries-AllEntries :
      (P : Text → Entry → Type 0) (cutoff : ℕ) (m : JsMap Entry)
      → AllEntries P m
      → AllEntries P (prune_entries cutoff m).1
  unfolding prune_entries
  prune_entries-AllEntries P cutoff [] h = tt
  prune_entries-AllEntries P cutoff ((k, e) ∷ m) h =
      prune_step-AllEntries P k e (prunable cutoff e) (prune_entries cutoff m) m h.0 h.1
        (prune_entries-AllEntries P cutoff m h.1)

  prune_step-UniqueKeys :
      (k : Text) (e : Entry) (r : Result Bool) (rest : Result ℕ × JsMap Entry) (m : JsMap Entry)
      → UniqueKeys ((k, e) ∷ m)
      → AllEntries (λ j w. j ≢ k) rest.1
      → UniqueKeys rest.1
      → UniqueKeys (prune_step k e r rest m).1
  unfolding prune_step
  prune_step-UniqueKeys k e (err f) rest m old other kept = old
  prune_step-UniqueKeys k e (ok false) rest m old other kept = (other, kept)
  prune_step-UniqueKeys k e (ok true) rest m old other kept = kept

  prune_entries-UniqueKeys :
      (cutoff : ℕ) (m : JsMap Entry) → UniqueKeys m → UniqueKeys (prune_entries cutoff m).1
  unfolding prune_entries
  prune_entries-UniqueKeys cutoff [] h = tt
  prune_entries-UniqueKeys cutoff ((k, e) ∷ m) h =
      prune_step-UniqueKeys k e (prunable cutoff e) (prune_entries cutoff m) m h
        (prune_entries-AllEntries (λ j w. j ≢ k) cutoff m h.0)
        (prune_entries-UniqueKeys cutoff m h.1)

  prune-IsState :
      (s : StateVector) (now_ms : Option ℕ) (clock_ms : ℕ)
      → IsState s
      → IsState (prune s now_ms clock_ms).1
  unfolding prune
  prune-IsState s now_ms clock_ms v = record {
    unique = prune_entries-UniqueKeys _ s.entries v.unique;
    entries = prune_entries-AllEntries IsEntry _ s.entries v.entries;
  }

  -- One call of the program that may change a state: an operation is applied, a well-formed state
  -- is merged in, or old entries are pruned.
  pub data Step : StateVector → StateVector → Type 0 where
    applies :
        {s s' : StateVector} (o : Operation) (options : Options) (clock_ms : ℕ) (applied : Bool)
        → IsOperation o
        → apply p s o options clock_ms ≡ ok (applied, s')
        → Step s s'
    merges : {s : StateVector} (other : StateVector) → IsState other → Step s (merge s other)
    prunes :
        {s : StateVector} (now_ms : Option ℕ) (clock_ms : ℕ) → Step s (prune s now_ms clock_ms).1

  pub data Reach (s : StateVector) : StateVector → Type 0 where
    here : Reach s s
    next : {t u : StateVector} → Reach s t → Step t u → Reach s u

  Step-IsState : {s t : StateVector} → Step s t → IsState s → IsState t
  Step-IsState {s} {t} (applies o options clock_ms applied w e) v =
      apply-IsState s t o options clock_ms applied v w e
  Step-IsState {s} (merges other w) v = merge-IsState s other v w
  Step-IsState {s} (prunes now_ms clock_ms) v = prune-IsState s now_ms clock_ms v

  -- From a well-formed state, such as an empty one, every sequence of calls leads to a well-formed
  -- state: no key stands twice, each entry stands under the key of its tuple, which is well formed,
  -- and its times fit 64 bits.
  pub Reach-IsState : {s t : StateVector} → IsState s → Reach s t → IsState t
  Reach-IsState v here = v
  Reach-IsState v (next r step) = Step-IsState step (Reach-IsState v r)
