-- ===== src/Crdt/Pruning.antt =====
-- `prune` of crdt.js removes only what is dead, and what it removes cannot come back.
use dacar.Common.{
  ℕ, ◌+◌, ◌-◌, ◌/◌, ◌<◌, ◌≡◌, refl, subst, Bool, true, false, ltb, leb, ◌&&◌, if◌then◌else◌,
  list_eq, list_eq→eq, ◌≢◌, [], ◌∷◌, inl, inr, Option, none, some, Text, arith, Bool-cases, Result,
  ok, err, length,
}
use dacar.JsMap.{JsMap}
use dacar.JsMap
use dacar.JsMap.Keys.{AllEntries, UniqueKeys, get_absent}
use dacar.Platform.{Platform}
use dacar.Hlc.{unpack_hlc}
use dacar.Crdt.{
  StateVector, Entry, prune, prune_entries, prune_step, prunable, stale, is_active_entry, active_of,
  active_tuples, or_clock, deletion_horizon_ms,
}
use dacar.Crdt.Invariant.{InRange, IsEntry, IsState}

-- What is pruned was inactive, and both its times are before the cutoff.
pub prunable-true :
    (cutoff : ℕ) (e : Entry)
    → prunable cutoff e ≡ ok true
    → (is_active_entry e ≡ false)
      × (a : ℕ) × (r : ℕ) × (e.add_ts ≡ some a)
      × (e.remove_ts ≡ some r)
      × (a / 65536 < cutoff)
      × (r / 65536 < cutoff)
unfolding prunable stale unpack_hlc
prunable-true cutoff e h = ground arith

-- Revoked, not granted again since, and with both times before the cutoff.
abbrev pub dead : ℕ → Entry → Bool
dead cutoff e = elim e.add_ts [
  | none ↦ false
  | some a ↦ elim e.remove_ts [
    | none ↦ false
    | some r ↦ leb a r && ltb (a / 65536) cutoff && ltb (r / 65536) cutoff
  ]
]

abbrev pub unless_dead : ℕ → Option Entry → Option Entry
unless_dead cutoff none = none
unless_dead cutoff (some e) = if dead cutoff e then none else some e

prunable-dead :
    (cutoff : ℕ) (e : Entry)
    → InRange e.add_ts
    → InRange e.remove_ts
    → prunable cutoff e ≡ ok (dead cutoff e)
unfolding prunable stale unpack_hlc is_active_entry
prunable-dead cutoff e a r = ground arith

active_of-prune_step :
    (k : Text) (e : Entry) (r : Result Bool) (rest : Result ℕ × JsMap Entry) (m : JsMap Entry)
    → (r ≡ ok true → is_active_entry e ≡ false)
    → active_of rest.1 ≡ active_of m
    → active_of (prune_step k e r rest m).1 ≡ active_of ((k, e) ∷ m)
unfolding active_of prune_step
active_of-prune_step k e (err f) rest m dead ih = refl
active_of-prune_step k e (ok false) rest m dead ih = rw ih
active_of-prune_step k e (ok true) rest m dead ih = rw (dead refl) ih

active_of-prune_entries :
    (cutoff : ℕ) (m : JsMap Entry) → active_of (prune_entries cutoff m).1 ≡ active_of m
unfolding prune_entries
active_of-prune_entries cutoff [] = refl
active_of-prune_entries cutoff ((k, e) ∷ m) =
    active_of-prune_step k e (prunable cutoff e) (prune_entries cutoff m) m
      (λ h. (prunable-true cutoff e h).0) (active_of-prune_entries cutoff m)

-- Pruning, at whatever time, leaves the active tuples and their order as they were.
pub active_tuples-prune :
    (s : StateVector) (now_ms : Option ℕ) (clock_ms : ℕ)
    → active_tuples (prune s now_ms clock_ms).1 ≡ active_tuples s
unfolding active_tuples prune
active_tuples-prune s now_ms clock_ms = active_of-prune_entries _ s.entries

module _ (p : Platform) where
  prune_entries_total :
      (cutoff : ℕ) (m : JsMap Entry)
      → AllEntries (IsEntry p) m
      → (n : ℕ) × ((prune_entries cutoff m).0 ≡ ok n)
        × (length (prune_entries cutoff m).1 + n ≡ length m)
  unfolding prune_entries prune_step
  prune_entries_total cutoff [] v = (0, refl, omega arith)
  prune_entries_total cutoff ((k, e) ∷ m) v =
      let (n, count, size) = prune_entries_total cutoff m v.1 in
      let decided = prunable-dead cutoff e v.0.added v.0.removed in
      elim (Bool-cases (dead cutoff e)) [
        | inl gone ↦ (n + 1, ground (arith, decided, count), ground (arith, decided, count, size))
        | inr kept ↦ (n, ground (arith, decided, count), ground (arith, decided, count, size))
      ]

  get-prune_entries :
      (cutoff : ℕ) (m : JsMap Entry) (k : Text)
      → AllEntries (IsEntry p) m
      → UniqueKeys m
      → JsMap.get (prune_entries cutoff m).1 k ≡ unless_dead cutoff (JsMap.get m k)
  unfolding prune_entries prune_step JsMap.get
  get-prune_entries cutoff [] k v u = refl
  get-prune_entries cutoff ((j, e) ∷ m) k v u = ground (
    arith,
    prunable-dead cutoff e v.0.added v.0.removed,
    get-prune_entries cutoff m k v.1 u.1,
    λ (same : list_eq j k ≡ true).
        get_absent m k (subst (λ i. AllEntries (λ x w. x ≢ i) m) (list_eq→eq j k same) u.0),
  )

  -- In a well-formed state pruning does not throw; it removes exactly the entries that are revoked
  -- with both their times before the horizon, and returns how many they were.
  pub prune_exact :
      (s : StateVector) (now_ms : Option ℕ) (clock_ms : ℕ)
      → IsState p s
      → ((k : Text)
          → JsMap.get (prune s now_ms clock_ms).1.entries k
            ≡ unless_dead
                (or_clock now_ms clock_ms - deletion_horizon_ms s)
                (JsMap.get s.entries k))
        × (n : ℕ) × ((prune s now_ms clock_ms).0 ≡ ok n)
        × (length (prune s now_ms clock_ms).1.entries + n ≡ length s.entries)
  unfolding prune
  prune_exact s now_ms clock_ms v =
      let cutoff = or_clock now_ms clock_ms - deletion_horizon_ms s in
      let (n, count, size) = prune_entries_total cutoff s.entries v.entries in
      (λ k. get-prune_entries cutoff s.entries k v.entries v.unique, n, count, size)
