-- ===== src/Display.antt =====
-- cli/dacar.js: how hashes, identities, relations, objects and clocks are written out.
use dacar.Common.{
  ℕ, zero, suc, ◌+◌, ◌/◌, ◌%◌, Bool, ltb, if◌then◌else◌, List, [], ◌∷◌, ◌++◌, take, Option, none,
  some, Bytes, Text, codes, length,
}
use dacar.Platform.{Platform, hex_digit}
use dacar.Alias.{AliasEntry, primary_name}
use dacar.Issue.{LedgerRow}

abbrev pub short_hash_length : ℕ
short_hash_length = 7

-- `…`, `·` and `∅`
abbrev pub ellipsis : ℕ
ellipsis = 0x2026

abbrev pub middle_dot : ℕ
middle_dot = 0xb7

abbrev pub empty_set : ℕ
empty_set = 0x2205

-- A text that is there and not empty.
abbrev pub truthy : Option Text → Option Text
truthy none = none
truthy (some []) = none
truthy (some (c ∷ t)) = some (c ∷ t)

-- The digits of a number in base ten, with fuel for their number.
decimal_from : ℕ → ℕ → Text
decimal_from zero n = []
decimal_from (suc fuel) n =
    let rest = decimal_from fuel (n / 10) in
    if ltb n 10 then (48 + n) ∷ [] else rest ++ (48 + n % 10) ∷ []

-- `String(n)`: a number has no more digits than its successor.
unfoldable pub decimal : ℕ → Text
unfolding decimal_from
decimal n = decimal_from (suc n) n

-- Sixteen digits of a 64-bit number, as `toString(16)` and `padStart` give them.
hex_from : ℕ → ℕ → Text
hex_from zero n = []
hex_from (suc digits) n = hex_from digits (n / 16) ++ hex_digit (n % 16) ∷ []

unfoldable pub hlc_hex : ℕ → Text
unfolding hex_from
hlc_hex hlc = codes "0x" ++ hex_from 16 hlc

module _ (p : Platform) where
  unfoldable pub short_hash : Bytes → Bool → Text
  short_hash hash full =
      if full then p.to_hex hash else take short_hash_length (p.to_hex hash) ++ ellipsis ∷ []

  unfoldable pub render_identity : Bytes → List AliasEntry → Bool → Text
  unfolding short_hash
  render_identity hash aliases full = elim (truthy (primary_name aliases hash)) [
    | some name ↦ name ++ codes " (" ++ short_hash hash full ++ codes ")"
    | none ↦ codes "? (" ++ short_hash hash full ++ codes ")"
  ]

  plain_or : (LedgerRow → Option Text) → Option LedgerRow → Text → Text
  plain_or part none other = other
  plain_or part (some row) other = elim (truthy (part row)) [ none ↦ other | some t ↦ t ]

  unfoldable pub render_relation : Bytes → Option LedgerRow → Bool → Text
  unfolding plain_or short_hash
  render_relation relation_hash row full =
      plain_or (λ r. r.relation) row (codes "[" ++ short_hash relation_hash full ++ codes "]")

  hashes_text : List Bytes → Bool → Bool → Text
  unfolding short_hash decimal
  hashes_text [] is_wildcard full =
      if is_wildcard then codes "[*]" else b'[' ∷ empty_set ∷ b']' ∷ []
  hashes_text (h ∷ []) is_wildcard full = codes "[" ++ short_hash h full ++ codes "]"
  hashes_text (h ∷ g ∷ hs) is_wildcard full =
      codes "["
      ++ short_hash h full
      ++ b' ' ∷ middle_dot ∷ b' ' ∷ decimal (length (h ∷ g ∷ hs))
      ++ codes " seg]"

  unfoldable pub render_object : List Bytes → Bool → Option LedgerRow → Bool → Text
  unfolding plain_or hashes_text
  render_object object_hashes is_wildcard row full =
      plain_or (λ r. r.object_id) row (hashes_text object_hashes is_wildcard full)
