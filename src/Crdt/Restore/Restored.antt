-- ===== src/Crdt/Restore/Restored.antt =====
-- A snapshot of the state of crdt.js is read back as it was.
use dacar.Common.{
  ℕ, ◌≤◌, ◌≡◌, ◌≢◌, refl, sym, ap, subst, ◌∙◌, true, List, [], ◌∷◌, ◌++◌, map, Option, none, some,
  Text, arith, ok, list_eq_iff, append_assoc, append-nil, leb,
}
use dacar.JsMap.{JsMap}
use dacar.JsMap
use dacar.JsMap.Keys.{UniqueKeys, AllEntries}
use dacar.Platform.{Platform, IsPacking}
use dacar.Value.{
  ℤ, pos, Value, arr, from_list, to_list, expect_array, expect_bytes, expect_bool, map_array,
}
use dacar.Value.BigInt.{big_int}
use dacar.Tuple.{key}
use dacar.Tuple.Preimage.{IsTuple, new_tuple_iff}
use dacar.Operation.Payload.{expect_bytes-map}
use dacar.Crdt.{StateVector, Entry}
use dacar.Crdt.Invariant.{IsEntry, IsState}
use dacar.Crdt.Snapshot.{time_value, row, to_payload}
use dacar.Crdt.Restore.{RawEntry, RawState, normalize_ts, read_row, read_rows, from_payload}

abbrev pub raw_time : Option ℕ → Option ℤ
raw_time none = none
raw_time (some t) = some (pos t)

abbrev pub raw_entry : Entry → RawEntry
raw_entry e = record {
  tuple = e.tuple;
  add_ts = raw_time e.add_ts;
  remove_ts = raw_time e.remove_ts;
}

abbrev pub raw_entries : JsMap Entry → JsMap RawEntry
raw_entries [] = []
raw_entries ((k, e) ∷ m) = (k, raw_entry e) ∷ raw_entries m

-- The state as the reader gives it.
abbrev pub raw_state : StateVector → RawState
raw_state s = record {
  entries = raw_entries s.entries;
  deletion_horizon_days = s.deletion_horizon_days;
}

normalize_ts-time_value : (t : Option ℕ) → normalize_ts (time_value t) ≡ ok (raw_time t)
unfolding normalize_ts time_value big_int
normalize_ts-time_value none = refl
normalize_ts-time_value (some t) = refl

read_row-row :
    (e : Entry)
    → IsTuple e.tuple
    → (fields : List Value) × (expect_array (row e) ≡ ok fields)
      × (read_row fields ≡ ok (raw_entry e))
unfolding row read_row expect_array map_array expect_bytes expect_bool
read_row-row e v = (
  _,
  refl,
  ground (
    arith,
    expect_bytes-map 16 e.tuple.object_hashes v.objects,
    v.relation,
    v.grantee,
    v.issuer,
    (new_tuple_iff e.tuple e.tuple).1 (refl, v),
    normalize_ts-time_value e.add_ts,
    normalize_ts-time_value e.remove_ts,
  ),
)

to_list-from_list : (vs : List Value) → to_list (from_list vs) ≡ vs
to_list-from_list [] = refl
to_list-from_list (v ∷ vs) = ap (λ r. v ∷ r) (to_list-from_list vs)

-- A key that is not there is put at the end.
set_new :
    (m : JsMap RawEntry) (k : Text) (e : RawEntry)
    → AllEntries (λ j w. j ≢ k) m
    → JsMap.set m k e ≡ m ++ (k, e) ∷ []
unfolding JsMap.set
set_new [] k e h = refl
set_new ((j, w) ∷ m) k e h = ground (arith, set_new m k e h.1, h.0, list_eq_iff j k)

AllEntries-append :
    (k : Text) (m n : JsMap RawEntry)
    → AllEntries (λ j w. j ≢ k) m
    → AllEntries (λ j w. j ≢ k) n
    → AllEntries (λ j w. j ≢ k) (m ++ n)
AllEntries-append k [] n h i = i
AllEntries-append k (x ∷ m) n h i = (h.0, AllEntries-append k m n h.1 i)

module _ (p : Platform) where
  -- None of the keys of the second map is in the first.
  abbrev Apart : JsMap RawEntry → JsMap Entry → Type 0
  Apart m es = AllEntries (λ k e. AllEntries (λ j w. j ≢ k) m) es

  Apart-snoc :
      (m : JsMap RawEntry) (k : Text) (r : RawEntry) (es : JsMap Entry)
      → Apart m es
      → AllEntries (λ j w. j ≢ k) es
      → Apart (m ++ (k, r) ∷ []) es
  Apart-snoc m k r [] h i = tt
  Apart-snoc m k r ((j, e) ∷ es) h i = (
    AllEntries-append j m ((k, r) ∷ []) h.0 ((λ same. i.0 (sym same)), tt),
    Apart-snoc m k r es h.1 i.1,
  )

  Apart-nil : (es : JsMap Entry) → Apart [] es
  Apart-nil [] = tt
  Apart-nil (e ∷ es) = (tt, Apart-nil es)

  read_rows-row :
      (m : JsMap RawEntry) (es : JsMap Entry)
      → AllEntries (IsEntry p) es
      → UniqueKeys es
      → Apart m es
      → read_rows p m (map row (JsMap.values es)) ≡ ok (m ++ raw_entries es)
  unfolding read_rows
  read_rows-row m [] v u a = ap ok (sym (append-nil m))
  read_rows-row m ((k, e) ∷ es) v u a =
      let (fields, split, read) = read_row-row e v.0.tuple in
      let there : JsMap.set m (key p e.tuple) (raw_entry e) ≡ m ++ (k, raw_entry e) ∷ [] =
        subst (λ j. JsMap.set m j (raw_entry e) ≡ m ++ (k, raw_entry e) ∷ []) v.0.keyed
          (set_new m k (raw_entry e) a.0) in
      rw (split, read, there)
        (read_rows-row (m ++ (k, raw_entry e) ∷ []) es v.1 u.1
            (Apart-snoc m k (raw_entry e) es a.1 u.0)
          ∙ ap ok (append_assoc m ((k, raw_entry e) ∷ []) (raw_entries es)))

  -- A well-formed state with its horizon is read back from its snapshot: every entry with its
  -- times, in its place.
  pub from_payload-to_payload_state :
      (s : StateVector)
      → IsPacking p
      → IsState p s
      → 1 ≤ s.deletion_horizon_days
      → from_payload p (to_payload p s) s.deletion_horizon_days ≡ ok (raw_state s)
  unfolding from_payload to_payload expect_array
  from_payload-to_payload_state s packing v days =
      let rows : List Value = map row (JsMap.values s.entries) in
      let positive : leb 1 s.deletion_horizon_days ≡ true = ground arith in
      rw (packing.decode-encode (arr (from_list rows))) (
        rw (to_list-from_list rows)
          (rw (positive, read_rows-row [] s.entries v.entries v.unique (Apart-nil s.entries)) refl))
