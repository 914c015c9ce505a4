-- ===== src/Crdt/Merging.antt =====
-- `merge` of crdt.js as an operation on maps from keys to entries: a semilattice on well-formed
-- states.
use dacar.Common.{
  ◌≡◌, ◌≢◌, refl, sym, ap, subst, ◌∙◌, true, list_eq, list_eq→eq, if◌then◌else◌, [], ◌∷◌, inl, inr,
  Option, none, some, Text, Bool-cases,
}
use dacar.JsMap.{JsMap}
use dacar.JsMap
use dacar.JsMap.Laws.{get-set}
use dacar.JsMap.Keys.{UniqueKeys, AllEntries, set-UniqueKeys, get-AllEntries, get_absent}
use dacar.Platform.{Platform, IsHex}
use dacar.Tuple.Preimage.{key-injective}
use dacar.Crdt.{StateVector, Entry, entry_or_new, max_both, merge, merge_entries, merge_entry}
use dacar.Crdt.Invariant.{IsState, IsEntry}
use dacar.Crdt.Stamps.{max_both_assoc, max_both_comm, max_both_self}

-- The entry of two that stand under one key: the tuple of the first, and the latest times of both.
abbrev both : Entry → Entry → Entry
both a b = record a {
  add_ts = max_both a.add_ts b.add_ts;
  remove_ts = max_both a.remove_ts b.remove_ts;
}

abbrev joined : Option Entry → Option Entry → Option Entry
joined none b = b
joined (some a) none = some a
joined (some a) (some b) = some (both a b)

joined-none : (a : Option Entry) → joined a none ≡ a
joined-none none = refl
joined-none (some a) = refl

joined_assoc : (a b c : Option Entry) → joined (joined a b) c ≡ joined a (joined b c)
joined_assoc none b c = refl
joined_assoc (some a) none c = refl
joined_assoc (some a) (some b) none = refl
joined_assoc (some a) (some b) (some c) =
    cc (
      max_both_assoc a.add_ts b.add_ts c.add_ts,
      max_both_assoc a.remove_ts b.remove_ts c.remove_ts,
    )

joined_self : (a : Option Entry) → joined a a ≡ a
joined_self none = refl
joined_self (some a) = cc (max_both_self a.add_ts, max_both_self a.remove_ts)

joined_comm :
    (a b : Option Entry)
    → ((e f : Entry) → a ≡ some e → b ≡ some f → e.tuple ≡ f.tuple)
    → joined a b ≡ joined b a
joined_comm none none same = refl
joined_comm none (some b) same = refl
joined_comm (some a) none same = refl
joined_comm (some a) (some b) same =
    cc (same a b refl refl, max_both_comm a.add_ts b.add_ts, max_both_comm a.remove_ts b.remove_ts)

joined-entry_or_new :
    (found : Option Entry) (e : Entry)
    → some (both (entry_or_new found e.tuple) e) ≡ joined found (some e)
unfolding max_both
joined-entry_or_new none e = refl
joined-entry_or_new (some b) e = refl

get-merge_entry :
    (m : JsMap Entry) (j k : Text) (e : Entry)
    → JsMap.get (merge_entry m j e) k
      ≡ (if list_eq j k then joined (JsMap.get m k) (some e) else JsMap.get m k)
unfolding merge_entry
get-merge_entry m j k e = elim (Bool-cases (list_eq j k)) [
  | inl same ↦
      rw (get-set m j k _, same)
        (joined-entry_or_new (JsMap.get m j) e
          ∙ ap (λ i. joined (JsMap.get m i) (some e)) (list_eq→eq _ _ same))
  | inr other ↦ rw (get-set m j k _, other) refl
]

get-merge_entries :
    (m others : JsMap Entry) (k : Text)
    → UniqueKeys others
    → JsMap.get (merge_entries m others) k ≡ joined (JsMap.get m k) (JsMap.get others k)
unfolding merge_entries
get-merge_entries m [] k u = sym (unfold JsMap.get in joined-none (JsMap.get m k))
get-merge_entries m ((j, e) ∷ others) k u =
    get-merge_entries (merge_entry m j e) others k u.1 ∙ head
  where
    tail_none : list_eq j k ≡ true → JsMap.get others k ≡ none
    tail_none same =
        get_absent others k
          (subst (λ i. AllEntries (λ x w. x ≢ i) others) (list_eq→eq j k same) u.0)

    head :
        joined (JsMap.get (merge_entry m j e) k) (JsMap.get others k)
        ≡ joined (JsMap.get m k) (JsMap.get ((j, e) ∷ others) k)
    head = elim (Bool-cases (list_eq j k)) [
      | inl same ↦
          rw (get-merge_entry m j k e, same, tail_none same)
            (joined-none _ ∙ (unfold JsMap.get in rw same refl))
      | inr other ↦ rw (get-merge_entry m j k e, other) (unfold JsMap.get in rw other refl)
    ]

get-merge :
    (s t : StateVector) (k : Text)
    → UniqueKeys t.entries
    → JsMap.get (merge s t).entries k ≡ joined (JsMap.get s.entries k) (JsMap.get t.entries k)
unfolding merge
get-merge s t k u = get-merge_entries s.entries t.entries k u

merge_entries-UniqueKeys :
    (m others : JsMap Entry) → UniqueKeys m → UniqueKeys (merge_entries m others)
unfolding merge_entries merge_entry
merge_entries-UniqueKeys m [] u = u
merge_entries-UniqueKeys m ((k, e) ∷ others) u =
    merge_entries-UniqueKeys (merge_entry m k e) others (set-UniqueKeys m k _ u)

merge-UniqueKeys : (s t : StateVector) → UniqueKeys s.entries → UniqueKeys (merge s t).entries
unfolding merge
merge-UniqueKeys s t u = merge_entries-UniqueKeys s.entries t.entries u

-- Two states that have the same entry, or none, under every key.
abbrev pub SameEntries : StateVector → StateVector → Type 0
SameEntries s t = (k : Text) → JsMap.get s.entries k ≡ JsMap.get t.entries k

module _ (p : Platform) (hex : IsHex p) where
  -- In well-formed states, what stands under one key is of one tuple.
  same_tuple :
      (s t : StateVector) (k : Text) (e f : Entry)
      → IsState p s
      → IsState p t
      → JsMap.get s.entries k ≡ some e
      → JsMap.get t.entries k ≡ some f
      → e.tuple ≡ f.tuple
  same_tuple s t k e f v w a b =
      let x = get-AllEntries (IsEntry p) s.entries k e v.entries a in
      let y = get-AllEntries (IsEntry p) t.entries k f w.entries b in
      key-injective p e.tuple f.tuple hex x.tuple y.tuple (sym x.keyed ∙ y.keyed)

  -- Merging well-formed states is commutative, associative and idempotent: whole entries, with
  -- their tuples and times, are the same under every key. The deletion horizon is that of the state
  -- that is merged into.
  pub merge_semilattice :
      (s t u : StateVector)
      → IsState p s
      → IsState p t
      → IsState p u
      → SameEntries (merge s t) (merge t s)
        × SameEntries (merge (merge s t) u) (merge s (merge t u))
        × SameEntries (merge s s) s
        × ((merge s t).deletion_horizon_days ≡ s.deletion_horizon_days)
  merge_semilattice s t u vs vt vu = (
    λ k.
        get-merge s t k vt.unique
        ∙ joined_comm _ _ (λ e f a b. same_tuple s t k e f vs vt a b)
        ∙ sym (get-merge t s k vs.unique),
    λ k.
        get-merge (merge s t) u k vu.unique
        ∙ ap (λ x. joined x (JsMap.get u.entries k)) (get-merge s t k vt.unique)
        ∙ joined_assoc (JsMap.get s.entries k) _ _
        ∙ ap (joined (JsMap.get s.entries k)) (sym (get-merge t u k vu.unique))
        ∙ sym (get-merge s (merge t u) k (merge-UniqueKeys t u vt.unique)),
    λ k. get-merge s s k vs.unique ∙ joined_self (JsMap.get s.entries k),
    unfold merge in refl,
  )
