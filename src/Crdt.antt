-- ===== src/Crdt.antt =====
-- crdt.js: the state vector, a map from tuples to the times at which they were last granted and
-- last revoked. Times of day are non-negative integers; the wall clock is an argument.
pub mod Stamps
pub mod Invariant
pub mod Convergence
pub mod Merging
pub mod Pruning
pub mod Intake
pub mod Snapshot
pub mod Restore
use dacar.Common.{
  ℕ, zero, suc, ◌+◌, ◌-◌, ◌*◌, ◌<◌, Bool, true, false, ◌&&◌, ltb, leb, if◌then◌else◌, List, [], ◌∷◌,
  Option, none, some, Text, Result, ok, err, error, require, ◌>>=◌, ◌>>◌,
}
use dacar.JsMap.{JsMap}
use dacar.JsMap
use dacar.Platform.{Platform}
use dacar.Hlc.{unpack_hlc}
use dacar.Tuple.{Tuple, key}
use dacar.Operation.{Operation, Action, revoke, grant}
use dacar.Verifier.{Resolver, verify_operation}

abbrev pub ms_per_day : ℕ
ms_per_day = 24 * 60 * 60 * 1000

abbrev pub default_max_future_ms : ℕ
default_max_future_ms = ms_per_day

abbrev pub default_deletion_horizon_days : ℕ
default_deletion_horizon_days = 180

pub record Entry : Type 0 where
  pub tuple : Tuple
  pub add_ts : Option ℕ
  pub remove_ts : Option ℕ

unfoldable pub max_ts : Option ℕ → ℕ → ℕ
max_ts none incoming = incoming
max_ts (some existing) incoming = if ltb incoming existing then existing else incoming

unfoldable pub max_both : Option ℕ → Option ℕ → Option ℕ
max_both none b = b
max_both (some a) none = some a
max_both (some a) (some b) = if ltb b a then some a else some b

pub record StateVector : Type 0 where
  pub entries : JsMap Entry
  pub deletion_horizon_days : ℕ

unfoldable pub new_state : ℕ → Result StateVector
new_state days = do
  require (leb 1 days) error
  ok (record { entries = []; deletion_horizon_days = days })

abbrev pub deletion_horizon_ms : StateVector → ℕ
deletion_horizon_ms s = s.deletion_horizon_days * ms_per_day

-- `now_ms` overrides the wall clock; without `max_future_ms` the skew is not limited.
pub record Options : Type 0 where
  pub now_ms : Option ℕ
  pub max_future_ms : Option ℕ

abbrev pub default_options : Options
default_options = record { now_ms = none; max_future_ms = some default_max_future_ms }

abbrev pub or_clock : Option ℕ → ℕ → ℕ
or_clock none clock_ms = clock_ms
or_clock (some now) clock_ms = now

abbrev pub too_new : Option ℕ → ℕ → ℕ → Bool
too_new none now physical_ms = false
too_new (some skew) now physical_ms = ltb (now + skew) physical_ms

-- The difference stops at 0, and no physical time is below 0: the test is the same.
abbrev pub too_old : StateVector → ℕ → ℕ → Bool
too_old s now physical_ms = ltb physical_ms (now - deletion_horizon_ms s)

abbrev pub entry_or_new : Option Entry → Tuple → Entry
entry_or_new none tuple = record { tuple = tuple; add_ts = none; remove_ts = none }
entry_or_new (some e) tuple = e

abbrev pub stamp : Entry → Action → ℕ → Entry
stamp e grant hlc = record e { add_ts = some (max_ts e.add_ts hlc) }
stamp e revoke hlc = record e { remove_ts = some (max_ts e.remove_ts hlc) }

unfoldable pub is_active_entry : Entry → Bool
is_active_entry e = elim e.add_ts [
  | none ↦ false
  | some added ↦ elim e.remove_ts [ none ↦ true | some removed ↦ ltb removed added ]
]

active_entry : Option Entry → Bool
unfolding is_active_entry
active_entry none = false
active_entry (some e) = is_active_entry e

unfoldable pub is_active : StateVector → Text → Bool
unfolding active_entry
is_active s k = active_entry (JsMap.get s.entries k)

active_of : JsMap Entry → List Tuple
active_of [] = []
active_of ((k, e) ∷ m) =
    let rest = active_of m in if is_active_entry e then e.tuple ∷ rest else rest

unfoldable pub active_tuples : StateVector → List Tuple
unfolding active_of
active_tuples s = active_of s.entries

-- `unpackHlc(addTs) < cutoff && unpackHlc(removeTs) < cutoff` for an inactive entry with both times.
stale : ℕ → Option ℕ → Option ℕ → Result Bool
stale cutoff none removed = ok false
stale cutoff (some added) none = ok false
stale cutoff (some added) (some removed) = do
  a ← unpack_hlc added
  if ltb a.physical_ms cutoff
      then (do r ← unpack_hlc removed; ok (ltb r.physical_ms cutoff))
      else ok false

unfoldable pub prunable : ℕ → Entry → Result Bool
unfolding stale
prunable cutoff e = if is_active_entry e then ok false else stale cutoff e.add_ts e.remove_ts

-- The loop deletes entries as it visits them, also before one whose time it cannot unpack.
prune_step :
    Text → Entry → Result Bool → Result ℕ × JsMap Entry → JsMap Entry → Result ℕ × JsMap Entry
prune_step k e (err f) (n, kept) m = (err f, (k, e) ∷ m)
prune_step k e (ok false) (n, kept) m = (n, (k, e) ∷ kept)
prune_step k e (ok true) (n, kept) m = (n >>= λ c. ok (c + 1), kept)

unfoldable pub prune_entries : ℕ → JsMap Entry → Result ℕ × JsMap Entry
unfolding prune_step
prune_entries cutoff [] = (ok 0, [])
prune_entries cutoff ((k, e) ∷ m) = prune_step k e (prunable cutoff e) (prune_entries cutoff m) m

unfoldable pub prune : StateVector → Option ℕ → ℕ → Result ℕ × StateVector
prune s now_ms clock_ms =
    let (count, kept) =
      prune_entries (or_clock now_ms clock_ms - deletion_horizon_ms s) s.entries in
    (count, record s { entries = kept })

-- One entry of the other state, merged into this one's.
merge_entry : JsMap Entry → Text → Entry → JsMap Entry
merge_entry m k other =
    let e = entry_or_new (JsMap.get m k) other.tuple in
    JsMap.set m k (record e {
      add_ts = max_both e.add_ts other.add_ts;
      remove_ts = max_both e.remove_ts other.remove_ts;
    })

unfoldable pub merge_entries : JsMap Entry → JsMap Entry → JsMap Entry
unfolding merge_entry
merge_entries m [] = m
merge_entries m ((k, e) ∷ others) = merge_entries (merge_entry m k e) others

unfoldable pub merge : StateVector → StateVector → StateVector
merge s other = record s { entries = merge_entries s.entries other.entries }

module _ (p : Platform) where
  unfoldable pub update : StateVector → Operation → StateVector
  update s o =
      let k = key p o.tuple in
      record s {
        entries =
            JsMap.set s.entries k
              (stamp (entry_or_new (JsMap.get s.entries k) o.tuple) o.action o.hlc);
      }

  unfoldable pub apply : StateVector → Operation → Options → ℕ → Result (Bool × StateVector)
  apply s o options clock_ms = do
    parts ← unpack_hlc o.hlc
    let now = or_clock options.now_ms clock_ms
    if too_new options.max_future_ms now parts.physical_ms
        then ok (false, s)
        else if too_old s now parts.physical_ms
        then ok (false, s)
        else ok (true, update s o)

  unfoldable pub ingest :
      StateVector → Operation → Resolver p → Options → ℕ → Result (Bool × StateVector)
  ingest s o resolver options clock_ms = do
    authentic ← verify_operation p o resolver
    if authentic then apply s o options clock_ms else ok (false, s)
