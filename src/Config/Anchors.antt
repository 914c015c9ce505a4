-- ===== src/Config/Anchors.antt =====
-- The set of anchors that the constructor of config.js builds.
use dacar.Common.{
  ◌≤◌, ◌≡◌, ◌≢◌, ◌↔◌, ◌⊎◌, inl, inr, refl, sym, subst, true, In, map, list_eq, list_eq→eq,
  Bool-cases, ◌==◌, List, [], ◌∷◌, Bytes, Text, length, All, arith, ok, require, type_error,
  >>=-eq-ok, require-eq-ok,
}
use dacar.Platform.{Platform}
use dacar.Namespace.{hash_size}
use dacar.Config.{add_anchors, set_has, set_add}

set_has-In : (ss : List Text) (t : Text) → set_has ss t ≡ true → In t ss
unfolding set_has
set_has-In [] t h = absurd (ground arith)
set_has-In (s ∷ ss) t h = elim (Bool-cases (list_eq s t)) [
  | inl same ↦ inl (sym (list_eq→eq s t same))
  | inr other ↦ inr (set_has-In ss t (ground arith))
]

set_add_iff : (ss : List Text) (t x : Text) → In x (set_add ss t) ↔ (In x ss ⊎ (x ≡ t))
unfolding set_add
set_add_iff ss t x = elim (Bool-cases (set_has ss t)) [
  | inl old ↦ rw old (
    λ i. inl i,
    λ i. elim i [ inl j ↦ j | inr same ↦ subst (λ y. In y ss) (sym same) (set_has-In ss t old) ],
  )
  | inr new ↦ rw new (
    λ i. elim i [ inl same ↦ inr same | inr j ↦ inl j ],
    λ i. elim i [ inl j ↦ inr j | inr same ↦ inl same ],
  )
]

module _ (p : Platform) where
  pub add_anchors-All :
      (ss ts : List Text) (as' : List Bytes)
      → add_anchors p ss as' ≡ ok ts
      → All (λ a. length a ≡ hash_size) as'
  unfolding add_anchors
  add_anchors-All ss ts [] e = tt
  add_anchors-All ss ts (a ∷ as') e =
      let (u, size, rest) = >>=-eq-ok (require (length a == hash_size) type_error) _ e in
      (
        ground (arith, require-eq-ok (length a == hash_size) type_error size),
        add_anchors-All (set_add ss (p.to_hex a)) ts as' rest,
      )

  length-set_add : (ss : List Text) (t : Text) → 1 ≤ length (set_add ss t)
  unfolding set_add set_has
  length-set_add [] t = ground arith
  length-set_add (s ∷ ss) t = ground arith

  -- Every anchor of 16 bytes is taken in, and a set that has an element keeps it.
  add_anchors-ok :
      (ss : List Text) (as' : List Bytes)
      → All (λ a. length a ≡ hash_size) as'
      → (ts : List Text) × (add_anchors p ss as' ≡ ok ts) × (1 ≤ length ss → 1 ≤ length ts)
  unfolding add_anchors
  add_anchors-ok ss [] h = (ss, refl, λ n. n)
  add_anchors-ok ss (a ∷ as') h =
      let (ts, added, kept) = add_anchors-ok (set_add ss (p.to_hex a)) as' h.1 in
      let size : (length a == hash_size) ≡ true = ground (arith, h.0) in
      (ts, rw size added, λ n. kept (length-set_add ss (p.to_hex a)))

  pub add_anchors-some :
      (as' : List Bytes)
      → as' ≢ []
      → All (λ a. length a ≡ hash_size) as'
      → (ts : List Text) × (add_anchors p [] as' ≡ ok ts) × (1 ≤ length ts)
  unfolding add_anchors
  add_anchors-some [] some' h = absurd (some' refl)
  add_anchors-some (a ∷ as') some' h =
      let (ts, added, kept) = add_anchors-ok (set_add [] (p.to_hex a)) as' h.1 in
      let size : (length a == hash_size) ≡ true = ground (arith, h.0) in
      (ts, rw size added, kept (length-set_add [] (p.to_hex a)))

  pub no_anchors :
      (as' : List Bytes) (ts : List Text) → as' ≡ [] → add_anchors p [] as' ≡ ok ts → length ts ≡ 0
  unfolding add_anchors
  no_anchors [] ts e f = ground arith
  no_anchors (a ∷ as') ts e f = cc

  pub add_anchors_iff :
      (ss ts : List Text) (as' : List Bytes) (x : Text)
      → add_anchors p ss as' ≡ ok ts
      → In x ts ↔ (In x ss ⊎ In x (map p.to_hex as'))
  unfolding add_anchors
  add_anchors_iff ss ts [] x e =
      let same : ss ≡ ts = cc e in
      subst (λ l. In x l ↔ (In x ss ⊎ ⊥)) same
        (λ i. inl i, λ i. elim i [ inl j ↦ j | inr f ↦ absurd f ])
  add_anchors_iff ss ts (a ∷ as') x e =
      let (u, size, rest) = >>=-eq-ok (require (length a == hash_size) type_error) _ e in
      let (forth, back) = add_anchors_iff (set_add ss (p.to_hex a)) ts as' x rest in
      let (out, into) = set_add_iff ss (p.to_hex a) x in
      (
        λ i. elim (forth i) [
          | inl j ↦ elim (out j) [ inl k ↦ inl k | inr same ↦ inr (inl same) ]
          | inr j ↦ inr (inr j)
        ],
        λ i. back (elim i [
          | inl j ↦ inl (into (inl j))
          | inr j ↦ elim j [ inl same ↦ inl (into (inr same)) | inr k ↦ inr k ]
        ]),
      )
