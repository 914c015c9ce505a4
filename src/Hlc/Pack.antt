-- ===== src/Hlc/Pack.antt =====
-- `packHlc` and `unpackHlc` of hlc.js are inverse to one another, and packed clocks are ordered as
-- the pairs that they stand for.
use dacar.Common.{ℕ, ◌+◌, ◌*◌, ◌/◌, ◌%◌, ◌≤◌, ◌<◌, ◌≡◌, ◌⊎◌, arith, ok, ◌↔◌, inl, inr}
use dacar.Hlc.{pack_hlc, unpack_hlc, Parts, max_physical, max_logical, max_hlc}

-- A physical time of 48 bits and a counter of 16 pack into a clock of 64 bits, and unpacking it
-- gives the two parts back.
pub unpack-pack :
    (p l : ℕ)
    → p ≤ max_physical
    → l ≤ max_logical
    → (h : ℕ) × (pack_hlc p l ≡ ok h)
      × (h ≤ max_hlc)
      × (unpack_hlc h ≡ ok (record { physical_ms = p; logical = l }))
unfolding pack_hlc unpack_hlc
unpack-pack p l hp hl = (p * 65536 + l, ground arith, omega arith, ground arith)

-- Every clock of 64 bits unpacks, and packing its parts gives it back.
pub pack-unpack :
    (h : ℕ)
    → h ≤ max_hlc
    → (parts : Parts) × (unpack_hlc h ≡ ok parts)
      × (pack_hlc parts.physical_ms parts.logical ≡ ok h)
unfolding pack_hlc unpack_hlc
pack-unpack h le =
    (record { physical_ms = h / 65536; logical = h % 65536 }, ground arith, ground arith)

-- A packing that succeeds is the sum of its fields, which are in range.
pub pack_hlc_fields :
    (p l : ℕ) {h : ℕ}
    → pack_hlc p l ≡ ok h
    → (h ≡ p * 65536 + l) × (p ≤ max_physical) × (l ≤ max_logical)
unfolding pack_hlc
pack_hlc_fields p l e = ground arith

pub unpack_hlc_fields :
    (h : ℕ) {parts : Parts}
    → unpack_hlc h ≡ ok parts
    → (h ≡ parts.physical_ms * 65536 + parts.logical)
      × (parts.logical ≤ max_logical)
      × (h ≤ max_hlc)
unfolding unpack_hlc
unpack_hlc_fields h e = ground arith

-- Packed clocks compare as their parts do, the physical time first and then the counter.
pub pack_hlc_order :
    (p l q m : ℕ) {h k : ℕ}
    → pack_hlc p l ≡ ok h
    → pack_hlc q m ≡ ok k
    → (h < k) ↔ ((p < q) ⊎ (p ≡ q) × (l < m))
pack_hlc_order p l q m {h} {k} e f =
    let a = pack_hlc_fields p l e in let b = pack_hlc_fields q m f in (forward a b, back a b)
  where
    forward :
        (h ≡ p * 65536 + l) × (p ≤ max_physical) × (l ≤ max_logical)
        → (k ≡ q * 65536 + m) × (q ≤ max_physical) × (m ≤ max_logical)
        → h < k
        → (p < q) ⊎ (p ≡ q) × (l < m)
    forward a b c = grind arith

    back :
        (h ≡ p * 65536 + l) × (p ≤ max_physical) × (l ≤ max_logical)
        → (k ≡ q * 65536 + m) × (q ≤ max_physical) × (m ≤ max_logical)
        → (p < q) ⊎ (p ≡ q) × (l < m)
        → h < k
    back a b (inl c) = omega arith
    back a b (inr c) = omega arith
