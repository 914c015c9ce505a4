-- ===== src/Crdt/Intake.antt =====
-- The intake tests of `apply` in crdt.js against pruning.
use dacar.Common.{ℕ, ◌-◌, ◌/◌, ◌≤◌, ◌<◌, ◌≡◌, ◌⊎◌, true, false, some, arith, ok}
use dacar.Platform.{Platform}
use dacar.Hlc.{max_hlc}
use dacar.Operation.{Operation}
use dacar.Crdt.{StateVector, Options, Entry, apply, prunable, or_clock, deletion_horizon_ms}
use dacar.Crdt.Pruning.{prunable-true}
use dacar.Crdt.Convergence.{apply_lem}

-- Once an entry is pruned, no operation that is not later than both of the entry's times is ever
-- applied again, at that time of day or later: an old grant cannot outlive its revocation.
pub pruned_stays_dead :
    (p : Platform) (s : StateVector) (e : Entry) (o : Operation) (options : Options)
    (now clock_ms : ℕ) (a r : ℕ)
    → prunable (now - deletion_horizon_ms s) e ≡ ok true
    → e.add_ts ≡ some a
    → e.remove_ts ≡ some r
    → (o.hlc ≤ a) ⊎ (o.hlc ≤ r)
    → now ≤ or_clock options.now_ms clock_ms
    → o.hlc ≤ max_hlc
    → apply p s o options clock_ms ≡ ok (false, s)
pruned_stays_dead p s e o options now clock_ms a r dead added removed old later fits =
    let (inactive, a', r', ea, er, stale_a, stale_r) =
      prunable-true (now - deletion_horizon_ms s) e dead in
    let same_a : a ≡ a' = cc (added, ea) in
    let same_r : r ≡ r' = cc (removed, er) in
    let stale : o.hlc / 65536 < now - deletion_horizon_ms s = ground arith in
    ground (arith, apply_lem p options clock_ms s o fits)
