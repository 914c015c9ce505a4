-- ===== src/Tests/Clocks.antt =====
-- Clocks of hlc.js at concrete times.
use dacar.Common.{ℕ, ◌+◌, ◌*◌, ◌≤◌, ◌<◌, ◌≡◌, refl, arith, ok, err, range_error}
use dacar.Hlc.{Clock, pack_hlc, unpack_hlc, now, observe, absorb, max_hlc, max_logical}
use dacar.Hlc.Pack.{unpack-pack}
use dacar.Hlc.Ticks.{After, now_later, observe_later, now_stuck}

unpack-pack_example :
    (h : ℕ) × (pack_hlc 1700000000000 7 ≡ ok h)
    × (h ≤ max_hlc)
    × (unpack_hlc h ≡ ok (record { physical_ms = 1700000000000; logical = 7 }))
unpack-pack_example = unpack-pack 1700000000000 7 (omega arith) (omega arith)

abbrev late : Clock
late = record { last_ms = 100; logical = 5 }

now_later_example :
    After 6553606 late
    × (6553606 ≡ (now late 90).1.last_ms * 65536 + (now late 90).1.logical)
    × (90 ≤ (now late 90).1.last_ms)
unfolding now pack_hlc
now_later_example = now_later late 90 (omega arith) refl

observe_later_example :
    After 6553610 late
    × (6553609 < 6553610)
    × (6553610 ≡ (observe late 90 6553609).1.last_ms * 65536 + (observe late 90 6553609).1.logical)
unfolding observe absorb pack_hlc unpack_hlc
observe_later_example = observe_later late 90 6553609 (omega arith) refl

abbrev full : Clock
full = record { last_ms = 100; logical = max_logical }

now_stuck_example :
    ((now full 100).0 ≡ err range_error)
    × (max_logical ≤ (now full 100).1.logical)
    × ((now full 100).1.last_ms ≡ 100)
now_stuck_example = now_stuck full 100 (omega arith) (omega arith)
