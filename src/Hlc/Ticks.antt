-- ===== src/Hlc/Ticks.antt =====
-- The `Clock` of hlc.js: what `now` and `observe` return and how they leave the clock.
use dacar.Common.{ℕ, ◌+◌, ◌*◌, ◌≤◌, ◌<◌, ◌≡◌, arith, ok, err, range_error}
use dacar.Hlc.{
  Clock, tick, now, absorb, observe, pack_hlc, max_physical, max_logical, max_hlc, unpack_hlc,
}

-- `h` is later than the clock `c`, as a packed clock.
abbrev pub After : ℕ → Clock → Type 0
After h c = c.last_ms * 65536 + c.logical < h

-- If the counter of the clock is in range, what `now` returns is later than the clock was, is the
-- packed form of the clock as it is left, and its physical time is not behind the wall clock.
pub now_later :
    (c : Clock) (phys : ℕ) {h : ℕ}
    → c.logical ≤ max_logical
    → (now c phys).0 ≡ ok h
    → After h c
      × (h ≡ (now c phys).1.last_ms * 65536 + (now c phys).1.logical)
      × (phys ≤ (now c phys).1.last_ms)
unfolding now tick pack_hlc
now_later c phys fits e = ground arith

-- If the counter of the clock is in range, what `observe` returns is later than the clock was and
-- than the clock that was observed, and is the packed form of the clock as it is left.
pub observe_later :
    (c : Clock) (phys remote : ℕ) {h : ℕ}
    → c.logical ≤ max_logical
    → (observe c phys remote).0 ≡ ok h
    → After h c
      × (remote < h)
      × (h ≡ (observe c phys remote).1.last_ms * 65536 + (observe c phys remote).1.logical)
unfolding observe absorb pack_hlc unpack_hlc
observe_later c phys remote fits e = ground arith

-- With its counter used up and the wall clock not past its physical time, `now` throws, and the
-- clock that it leaves is in that condition again.
pub now_stuck :
    (c : Clock) (phys : ℕ)
    → max_logical ≤ c.logical
    → phys ≤ c.last_ms
    → ((now c phys).0 ≡ err range_error)
      × (max_logical ≤ (now c phys).1.logical)
      × ((now c phys).1.last_ms ≡ c.last_ms)
unfolding now tick pack_hlc
now_stuck c phys full late = ground arith

-- A remote clock with the largest physical time, which is not yet past, makes `observe` throw or
-- leave the physical time there.
pub observe_max_sticks :
    (c : Clock) (phys : ℕ)
    → phys < max_physical
    → c.last_ms < max_physical
    → ((observe c phys max_hlc).0 ≡ err range_error)
      × ((observe c phys max_hlc).1 ≡ record { last_ms = max_physical; logical = max_logical + 1 })
unfolding observe absorb pack_hlc unpack_hlc
observe_max_sticks c phys early behind = ground arith
