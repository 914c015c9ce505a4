-- ===== src/JsMap/Laws.antt =====
-- The laws of the map, for every key that is looked up.
use dacar.Common.{
  Text, ◌≡◌, refl, none, some, [], ◌∷◌, arith, list_eq, list_eq_iff, if◌then◌else◌, list_eq_refl,
}
use dacar.JsMap.{JsMap, get, set, delete}

module _ {ℓ} {V : Type ℓ} where
  pub get-set :
      (m : JsMap V) (k j : Text) (v : V)
      → get (set m k v) j ≡ (if list_eq k j then some v else get m j)
  unfolding get set
  get-set [] k j v = refl
  get-set ((i, w) ∷ m) k j v =
      ground (arith, list_eq_iff i k, list_eq_iff i j, list_eq_iff k j, get-set m k j v)

  pub get-set_self : (m : JsMap V) (k : Text) (v : V) → get (set m k v) k ≡ some v
  get-set_self m k v = rw (get-set m k k v, list_eq_refl k)

  pub get-delete :
      (m : JsMap V) (k j : Text) → get (delete m k) j ≡ (if list_eq k j then none else get m j)
  unfolding get delete
  get-delete [] k j = ground arith
  get-delete ((i, w) ∷ m) k j =
      ground (arith, list_eq_iff i k, list_eq_iff i j, list_eq_iff k j, get-delete m k j)

  pub get-empty : (k : Text) → get {V = V} [] k ≡ none
  unfolding get
  get-empty k = refl
