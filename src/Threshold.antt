-- ===== src/Threshold.antt =====
-- threshold.js: groups of members who issue together, and the identifier of a group.
use dacar.Common.{
  ℕ, ◌-◌, ◌++◌, Bool, true, not, ◌&&◌, ltb, leb, ◌==◌, if◌then◌else◌, List, [], ◌∷◌, Option, none,
  some, Bytes, length, take, Result, ok, err, error, range_error, require, ◌>>◌,
}
use dacar.Platform.{Platform}
use dacar.Value.{ℤ, pos, negsuc}
use dacar.Namespace.{hash_size}
use dacar.Tuple.{concat}
use dacar.Operation.{big_endian}

abbrev pub threshold_bytes : ℕ
threshold_bytes = 8

abbrev difference : ℕ → ℕ → ℤ
difference a b = if leb b a then pos (a - b) else negsuc (b - a - 1)

-- Past the end of the second array the difference is `NaN`, which a sort takes for 0.
unfoldable pub compare_hashes : Bytes → Bytes → ℤ
compare_hashes [] bs = pos 0
compare_hashes (a ∷ as') [] = pos 0
compare_hashes (a ∷ as') (b ∷ bs) = if a == b then compare_hashes as' bs else difference a b

abbrev pub not_after : ℤ → Bool
not_after (pos n) = n == 0
not_after (negsuc n) = true

-- `sort(compareHashes)`: a stable sort.
unfoldable pub insert : Bytes → List Bytes → List Bytes
insert x [] = x ∷ []
insert x (y ∷ ys) =
    let rest = insert x ys in if not_after (compare_hashes x y) then x ∷ y ∷ ys else y ∷ rest

unfoldable pub sort : List Bytes → List Bytes
sort [] = []
sort (x ∷ xs) = insert x (sort xs)

all_hashes : List Bytes → Bool
all_hashes [] = true
all_hashes (m ∷ ms) = length m == hash_size && all_hashes ms

unfoldable pub validate_members : List Bytes → ℕ → Result (Unit {0})
unfolding all_hashes
validate_members members threshold = do
  require (leb 1 threshold && leb threshold (length members)) error
  require (all_hashes members) range_error
  require (not (ltb (length members) 2)) error
  ok tt

unfoldable pub group_id : (p : Platform) → List Bytes → ℕ → Result Bytes
group_id p members threshold = do
  let normalized = sort members
  validate_members normalized threshold
  ok (take hash_size (p.sha256 (concat normalized ++ big_endian threshold_bytes threshold)))

-- `cached_id` is the identifier once it has been computed.
pub record ThresholdGroup : Type 0 where
  pub members : List Bytes
  pub threshold : ℕ
  pub cached_id : Option Bytes

unfoldable pub new_group : List Bytes → ℕ → Result ThresholdGroup
new_group members threshold = do
  validate_members members threshold
  ok (record { members = sort members; threshold = threshold; cached_id = none })

unfoldable pub size : ThresholdGroup → ℕ
size g = length g.members

remember : ThresholdGroup → Result Bytes → Result Bytes × ThresholdGroup
remember g (ok id) = (ok id, record g { cached_id = some id })
remember g (err e) = (err e, g)

-- The method, which returns the cached identifier or computes it and keeps it.
unfoldable pub id_of : (p : Platform) → ThresholdGroup → Result Bytes × ThresholdGroup
unfolding remember
id_of p g = elim g.cached_id [
  | none ↦ remember g (group_id p g.members g.threshold)
  | some id ↦ (ok id, g)
]
