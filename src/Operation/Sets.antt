-- ===== src/Operation/Sets.antt =====
-- The sets of texts that operation.js and cli/dacar.js keep: their elements.
use dacar.Common.{
  ◌≡◌, ◌↔◌, ◌⊎◌, inl, inr, sym, true, ◌||◌, List, [], ◌∷◌, map, Bytes, Text, arith, In, list_eq,
  list_eq→eq, list_eq_iff, Bool-cases,
}
use dacar.Platform.{Platform, IsHex}
use dacar.Operation.{set_has, set_add}

pub set_has-add :
    (ss : List Text) (k t : Text) → set_has (set_add ss k) t ≡ (list_eq k t || set_has ss t)
unfolding set_add set_has
set_has-add ss k t = ground (arith, list_eq_iff k t)

-- The hexadecimal text of a byte string is in the set of the texts of a list if the byte string is
-- in the list.
module _ (p : Platform) (hex : IsHex p) where
  pub set_has-hex :
      (bs : List Bytes) (x : Bytes) → (set_has (map p.to_hex bs) (p.to_hex x) ≡ true) ↔ In x bs
  unfolding set_has
  set_has-hex [] x = (λ h. ground arith, λ h. absurd h)
  set_has-hex (b ∷ bs) x = elim (Bool-cases (list_eq (p.to_hex b) (p.to_hex x))) [
    | inl same ↦ (
      λ h. inl (sym (hex.to_hex-injective b x (list_eq→eq (p.to_hex b) (p.to_hex x) same))),
      λ h. ground arith,
    )
    | inr other ↦ (
      λ h. inr ((set_has-hex bs x).0 (ground arith)),
      elim [
        | inl e ↦ absurd (ground (arith, list_eq_iff (p.to_hex b) (p.to_hex x)))
        | inr i ↦ ground (arith, (set_has-hex bs x).1 i)
      ],
    )
  ]

  -- One more byte string in the set.
  pub set_has-add_hex :
      (ss : List Text) (b x : Bytes)
      → (set_has (set_add ss (p.to_hex b)) (p.to_hex x) ≡ true)
        ↔ ((x ≡ b) ⊎ (set_has ss (p.to_hex x) ≡ true))
  set_has-add_hex ss b x = (
    λ h. elim (Bool-cases (list_eq (p.to_hex b) (p.to_hex x))) [
      | inl same ↦ inl (sym (hex.to_hex-injective b x (list_eq→eq (p.to_hex b) (p.to_hex x) same)))
      | inr other ↦ inr (ground (arith, set_has-add ss (p.to_hex b) (p.to_hex x)))
    ],
    elim [
      | inl e ↦
          ground
            (arith, set_has-add ss (p.to_hex b) (p.to_hex x), list_eq_iff (p.to_hex b) (p.to_hex x))
      | inr i ↦ ground (arith, set_has-add ss (p.to_hex b) (p.to_hex x))
    ],
  )
