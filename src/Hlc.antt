-- ===== src/Hlc.antt =====
-- hlc.js: hybrid logical clocks. Physical times, counters and packed clocks are non-negative
-- integers; the wall clock `physicalNowMs()` is an argument of each call that reads it.
pub mod Pack
pub mod Ticks
use dacar.Common.{
  ℕ, ◌+◌, ◌-◌, ◌*◌, ◌/◌, ◌%◌, ◌^◌, max, ◌&&◌, ltb, leb, if◌then◌else◌, Result, ok, err, range_error,
  require, ◌>>=◌, ◌>>◌,
}

abbrev pub physical_bits : ℕ
physical_bits = 48

abbrev pub logical_bits : ℕ
logical_bits = 16

abbrev pub logical_mask : ℕ
logical_mask = 2 ^ logical_bits - 1

abbrev pub max_physical : ℕ
max_physical = 2 ^ physical_bits - 1

abbrev pub max_logical : ℕ
max_logical = logical_mask

abbrev pub max_hlc : ℕ
max_hlc = 2 ^ 64 - 1

-- The logical part passed the guard, so it fills the low bits and `|` is a sum.
unfoldable pub pack_hlc : ℕ → ℕ → Result ℕ
pack_hlc physical_ms logical = do
  require (leb physical_ms max_physical) range_error
  require (leb logical max_logical) range_error
  ok (physical_ms * 2 ^ logical_bits + logical)

pub record Parts : Type 0 where
  pub physical_ms : ℕ
  pub logical : ℕ

unfoldable pub unpack_hlc : ℕ → Result Parts
unpack_hlc hlc = do
  require (leb hlc max_hlc) range_error
  ok (record { physical_ms = hlc / 2 ^ logical_bits; logical = hlc % 2 ^ logical_bits })

pub record Clock : Type 0 where
  pub last_ms : ℕ
  pub logical : ℕ

abbrev pub new_clock : Clock
new_clock = record { last_ms = 0; logical = 0 }

unfoldable pub restore : Clock → Clock → Clock
restore c snap = record c { last_ms = snap.last_ms; logical = snap.logical }

unfoldable pub snapshot : Clock → Clock
snapshot c = record { last_ms = c.last_ms; logical = c.logical }

-- The fields as `now()` leaves them, before it packs them.
unfoldable pub tick : Clock → ℕ → Clock
tick c phys =
    if ltb c.last_ms phys
    then record { last_ms = phys; logical = 0 }
    else record c { logical = c.logical + 1 }

-- A packing that throws leaves the fields as they were set.
unfoldable pub now : Clock → ℕ → Result ℕ × Clock
unfolding tick
now c phys = let c' = tick c phys in (pack_hlc c'.last_ms c'.logical, c')

unfoldable pub absorb : Clock → ℕ → Parts → Clock
absorb c phys remote =
    if ltb c.last_ms phys && ltb remote.physical_ms phys
    then record { last_ms = phys; logical = 0 }
    else if ltb c.last_ms remote.physical_ms
    then record { last_ms = remote.physical_ms; logical = remote.logical + 1 }
    else if ltb remote.physical_ms c.last_ms
    then record c { logical = c.logical + 1 }
    else record c { logical = max c.logical remote.logical + 1 }

observe_parts : Clock → ℕ → Result Parts → Result ℕ × Clock
unfolding absorb
observe_parts c phys (err e) = (err e, c)
observe_parts c phys (ok remote) =
    let c' = absorb c phys remote in (pack_hlc c'.last_ms c'.logical, c')

unfoldable pub observe : Clock → ℕ → ℕ → Result ℕ × Clock
unfolding observe_parts
observe c phys remote_hlc = observe_parts c phys (unpack_hlc remote_hlc)
