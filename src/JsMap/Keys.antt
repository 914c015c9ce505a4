-- ===== src/JsMap/Keys.antt =====
-- Maps without a repeated key, and properties of all entries.
use dacar.Common.{
  Text, ◌≡◌, ◌≢◌, refl, sym, subst, none, some, [], ◌∷◌, arith, list_eq, list_eq_iff, list_eq→eq,
  Bool-cases, inl, inr,
}
use dacar.JsMap.{JsMap, get, set}

-- `P` holds of every key and its value.
abbrev pub AllEntries {ℓ κ} : {V : Type ℓ} → (Text → V → Type κ) → JsMap V → Type κ
AllEntries P [] = Unit
AllEntries P ((k, v) ∷ m) = P k v × AllEntries P m

-- No two entries have one key.
abbrev pub UniqueKeys {ℓ} : {V : Type ℓ} → JsMap V → Type 0
UniqueKeys [] = Unit
UniqueKeys ((k, v) ∷ m) = AllEntries (λ j w. j ≢ k) m × UniqueKeys m

module _ {ℓ} {V : Type ℓ} where
  pub set-AllEntries {κ} :
      (P : Text → V → Type κ) (m : JsMap V) (k : Text) (v : V)
      → AllEntries P m
      → P k v
      → AllEntries P (set m k v)
  unfolding set
  set-AllEntries P [] k v h here = (here, tt)
  set-AllEntries P ((i, w) ∷ m) k v h here = elim (Bool-cases (list_eq i k)) [
    | inl e ↦ rw (e, set) (subst (λ j. P j v) (sym (list_eq→eq i k e)) here, h.1)
    | inr e ↦ rw (e, set) (h.0, set-AllEntries P m k v h.1 here)
  ]

  pub set-UniqueKeys : (m : JsMap V) (k : Text) (v : V) → UniqueKeys m → UniqueKeys (set m k v)
  unfolding set
  set-UniqueKeys [] k v h = (tt, tt)
  set-UniqueKeys ((i, w) ∷ m) k v h = elim (Bool-cases (list_eq i k)) [
    | inl e ↦ rw (e, set) (h.0, h.1)
    | inr e ↦
        rw (e, set)
          (
            set-AllEntries (λ j w. j ≢ i) m k v h.0 (λ same. ground (arith, list_eq_iff i k)),
            set-UniqueKeys m k v h.1,
          )
  ]

  pub get-AllEntries {κ} :
      (P : Text → V → Type κ) (m : JsMap V) (k : Text) (v : V)
      → AllEntries P m
      → get m k ≡ some v
      → P k v
  unfolding get
  get-AllEntries P [] k v h e = cc
  get-AllEntries P ((i, w) ∷ m) k v h e = elim (Bool-cases (list_eq i k)) [
    | inl same ↦
        let value : w ≡ v = ground arith in
        subst (λ x. P k x) value (subst (λ j. P j w) (list_eq→eq i k same) h.0)
    | inr other ↦ get-AllEntries P m k v h.1 (ground arith)
  ]

  pub get_absent : (m : JsMap V) (k : Text) → AllEntries (λ j w. j ≢ k) m → get m k ≡ none
  unfolding get
  get_absent [] k h = refl
  get_absent ((i, w) ∷ m) k h = ground (arith, get_absent m k h.1, list_eq_iff i k, h.0)
