-- ===== src/JsMap.antt =====
-- A `Map` with string keys: its entries in the order of insertion. A `set` of a key that is there
-- keeps the key's place. The proofs are in the module below.
pub mod Laws
pub mod Keys
use dacar.Common.{
  Bool, Option, none, some, List, [], ◌∷◌, map, ℕ, Text, length, list_eq, if◌then◌else◌,
}

abbrev pub JsMap {ℓ} : Type ℓ → Type ℓ
JsMap V = List (Text × V)

abbrev pub is_some {ℓ} : {A : Type ℓ} → Option A → Bool
is_some none = Bool.false
is_some (some a) = Bool.true

module _ {ℓ} {V : Type ℓ} where
  unfoldable pub get : JsMap V → Text → Option V
  get [] k = none
  get ((j, v) ∷ m) k = if list_eq j k then some v else get m k

  unfoldable pub set : JsMap V → Text → V → JsMap V
  set [] k v = (k, v) ∷ []
  set ((j, w) ∷ m) k v = if list_eq j k then (j, v) ∷ m else (j, w) ∷ set m k v

  unfoldable pub delete : JsMap V → Text → JsMap V
  delete [] k = []
  delete ((j, w) ∷ m) k = let rest = delete m k in if list_eq j k then rest else (j, w) ∷ rest

  unfoldable pub has : JsMap V → Text → Bool
  unfolding get
  has m k = is_some (get m k)

  unfoldable pub size : JsMap V → ℕ
  size m = length m

  abbrev pub values : JsMap V → List V
  values m = map (λ (e : Text × V). e.1) m
