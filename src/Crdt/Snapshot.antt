-- ===== src/Crdt/Snapshot.antt =====
-- The read access of `StateVector` in crdt.js and the encoding of its snapshot.
use dacar.Common.{ℕ, Bool, [], ◌∷◌, map, Option, none, some, Text, Bytes}
use dacar.JsMap
use dacar.Platform.{Platform}
use dacar.Value.{Value, nil, bool, int, bin, arr, pos, from_list}
use dacar.Crdt.{StateVector, Entry}

unfoldable pub size : StateVector → ℕ
size s = JsMap.size s.entries

unfoldable pub has : StateVector → Text → Bool
has s key = JsMap.has s.entries key

unfoldable pub get : StateVector → Text → Option Entry
get s key = JsMap.get s.entries key

unfoldable pub time_value : Option ℕ → Value
time_value none = nil
time_value (some t) = int (pos t)

-- The row of an entry.
unfoldable pub row : Entry → Value
row e = arr (
    from_list (
      bin e.tuple.relation_hash
      ∷ arr (from_list (map bin e.tuple.object_hashes))
      ∷ bool e.tuple.is_wildcard
      ∷ bin e.tuple.grantee
      ∷ bin e.tuple.issuer
      ∷ time_value e.add_ts
      ∷ time_value e.remove_ts
      ∷ []))

unfoldable pub to_payload : (p : Platform) → StateVector → Bytes
to_payload p s = p.encode (arr (from_list (map row (JsMap.values s.entries))))
