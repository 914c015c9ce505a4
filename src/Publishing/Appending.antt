-- ===== src/Publishing/Appending.antt =====
-- The two loops of `recordPublish` of cli/dacar.js: over the outbox and over what was accepted.
use dacar.Common.{
  ◌≤◌, ◌≡◌, ◌↔◌, ◌⊎◌, inl, inr, refl, sym, ap, subst, ◌∙◌, Bool, true, false, Bool-cases, List, [],
  ◌∷◌, ◌++◌, Bytes, Text, length, arith, In, In-append, Distinct, Distinct-snoc, append_assoc,
  append-nil,
}
use dacar.Platform.{Platform, IsHex}
use dacar.Operation.{set_has, set_add}
use dacar.Operation.Sets.{set_has-add_hex}
use dacar.Publishing.{outside, append_new}

module _ (p : Platform) (hex : IsHex p) where
  pub outside_iff :
      (hexes : List Text) (bs : List Bytes) (x : Bytes)
      → In x (outside p hexes bs) ↔ (In x bs × (set_has hexes (p.to_hex x) ≡ false))
  unfolding outside
  outside_iff hexes [] x = (λ i. absurd i, λ i. i.0)
  outside_iff hexes (b ∷ bs) x = elim (Bool-cases (set_has hexes (p.to_hex b))) [
    | inl known ↦ rw known (
      λ i. let r = (outside_iff hexes bs x).0 i in (inr (r.0), r.1),
      λ i. elim i.0 [
        | inl e ↦ absurd (ground (arith, ap (λ y. set_has hexes (p.to_hex y)) e))
        | inr j ↦ (outside_iff hexes bs x).1 (j, i.1)
      ],
    )
    | inr new ↦ rw new (
      λ i. elim i [
        | inl e ↦ (inl e, cc (new, ap (λ y. set_has hexes (p.to_hex y)) e))
        | inr j ↦ let r = (outside_iff hexes bs x).0 j in (inr (r.0), r.1)
      ],
      λ i. elim i.0 [ inl e ↦ inl e | inr j ↦ inr ((outside_iff hexes bs x).1 (j, i.1)) ],
    )
  ]

  pub outside-shorter :
      (hexes : List Text) (bs : List Bytes) → length (outside p hexes bs) ≤ length bs
  unfolding outside
  outside-shorter hexes [] = omega arith
  outside-shorter hexes (b ∷ bs) = ground (arith, outside-shorter hexes bs)

  pub outside-length :
      (hexes : List Text) (bs : List Bytes)
      → length (outside p hexes bs) ≡ length bs
      → outside p hexes bs ≡ bs
  unfolding outside
  outside-length hexes [] h = refl
  outside-length hexes (b ∷ bs) h = elim (Bool-cases (set_has hexes (p.to_hex b))) [
    | inl known ↦ absurd (omega (arith, outside-shorter hexes bs, rw known at h))
    | inr new ↦ rw new (ap (λ r. b ∷ r) (outside-length hexes bs (omega (arith, rw new at h))))
  ]

  append_new-changed :
      (existing : List Text) (sent bs : List Bytes) → (append_new p existing sent true bs).1 ≡ true
  unfolding append_new
  append_new-changed existing sent [] = refl
  append_new-changed existing sent (b ∷ bs) = elim (Bool-cases (set_has existing (p.to_hex b))) [
    | inl known ↦ rw (known, append_new) (append_new-changed existing sent bs)
    | inr new ↦
        rw (new, append_new)
          (append_new-changed (set_add existing (p.to_hex b)) (sent ++ b ∷ []) bs)
  ]

  -- What the loop leaves in the sent box, and whether it changed it.
  pub record Appended (sent bs : List Bytes) (changed : Bool) (r : List Bytes × Bool) : Type 0 where
    pub new : List Bytes
    pub whole : r.0 ≡ sent ++ new
    pub members : (x : Bytes) → In x r.0 ↔ (In x sent ⊎ In x bs)
    pub distinct : Distinct sent → Distinct r.0
    pub same : r.1 ≡ false → r.0 ≡ sent

  pub append_new-Appended :
      (existing : List Text) (sent bs : List Bytes) (changed : Bool)
      → ((x : Bytes) → (set_has existing (p.to_hex x) ≡ true) ↔ In x sent)
      → Appended sent bs changed (append_new p existing sent changed bs)
  unfolding append_new
  append_new-Appended existing sent [] changed known = record {
    new = [];
    whole = sym (append-nil sent);
    members = λ x. (λ i. inl i, λ i. elim i [ inl j ↦ j | inr f ↦ absurd f ]);
    distinct = λ d. d;
    same = λ e. refl;
  }
  append_new-Appended existing sent (b ∷ bs) changed known =
      elim (Bool-cases (set_has existing (p.to_hex b))) [
        | inl old ↦
            rw (old, append_new)
              (again ((known b).0 old) (append_new-Appended existing sent bs changed known))
        | inr fresh ↦
            rw (fresh, append_new)
              (grown (λ i. ground (arith, (known b).1 i))
                (append_new-Appended (set_add existing (p.to_hex b)) (sent ++ b ∷ []) bs true
                  grown_set))
      ]
    where
      again :
          In b sent
          → Appended sent bs changed (append_new p existing sent changed bs)
          → Appended sent (b ∷ bs) changed (append_new p existing sent changed bs)
      again i v = record {
        new = v.new;
        whole = v.whole;
        members = λ x. (
          λ j. elim ((v.members x).0 j) [ inl k ↦ inl k | inr k ↦ inr (inr k) ],
          λ j. elim j [
            | inl k ↦ (v.members x).1 (inl k)
            | inr k ↦ elim k [
              | inl e ↦ (v.members x).1 (inl (subst (λ y. In y sent) (sym e) i))
              | inr m ↦ (v.members x).1 (inr m)
            ]
          ],
        );
        distinct = v.distinct;
        same = v.same;
      }

      grown_set :
          (x : Bytes)
          → (set_has (set_add existing (p.to_hex b)) (p.to_hex x) ≡ true) ↔ In x (sent ++ b ∷ [])
      grown_set x = (
        λ h. (In-append x sent (b ∷ [])).1 (elim ((set_has-add_hex p hex existing b x).0 h) [
          | inl e ↦ inr (inl e)
          | inr k ↦ inl ((known x).0 k)
        ]),
        λ i. (set_has-add_hex p hex existing b x).1 (elim ((In-append x sent (b ∷ [])).0 i) [
          | inl k ↦ inr ((known x).1 k)
          | inr k ↦ elim k [ inl e ↦ inl e | inr f ↦ absurd f ]
        ]),
      )

      grown :
          (In b sent → ⊥)
          → Appended
              (sent ++ b ∷ [])
              bs
              true
              (append_new p (set_add existing (p.to_hex b)) (sent ++ b ∷ []) true bs)
          → Appended sent
              (b ∷ bs)
              changed
              (append_new p (set_add existing (p.to_hex b)) (sent ++ b ∷ []) true bs)
      grown absent v = record {
        new = b ∷ v.new;
        whole = v.whole ∙ append_assoc sent (b ∷ []) v.new;
        members = λ x. (
          λ j. elim ((v.members x).0 j) [
            | inl k ↦ elim ((In-append x sent (b ∷ [])).0 k) [
              | inl m ↦ inl m
              | inr m ↦ elim m [ inl e ↦ inr (inl e) | inr f ↦ absurd f ]
            ]
            | inr k ↦ inr (inr k)
          ],
          λ j. (v.members x).1 (elim j [
            | inl k ↦ inl ((In-append x sent (b ∷ [])).1 (inl k))
            | inr k ↦ elim k [
              | inl e ↦ inl ((In-append x sent (b ∷ [])).1 (inr (inl e)))
              | inr m ↦ inr m
            ]
          ]),
        );
        distinct = λ d. v.distinct (Distinct-snoc sent b d absent);
        same = λ e. absurd (
            ground (arith, append_new-changed (set_add existing (p.to_hex b)) (sent ++ b ∷ []) bs));
      }
