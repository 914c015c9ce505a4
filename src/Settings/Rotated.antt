-- ===== src/Settings/Rotated.antt =====
-- What rotating the salt and the identity of a store does to its configuration.
use dacar.Common.{
  All-In, suc, ◌≤◌, ◌≡◌, ◌≢◌, ◌↔◌, ◌⊎◌, inl, inr, refl, sym, ap, subst, ◌∙◌, true, Bool-cases, List,
  [], ◌∷◌, take, Option, none, some, Bytes, length, All, In, In-All, In-append, arith, ok,
}
use dacar.Platform.{Platform}
use dacar.Namespace.{hash_size, salt_size, bytes_equal, max_legacy_salts}
use dacar.Namespace.Bits.{bytes_equal_iff}
use dacar.Config.{Config, ConfigInit}
use dacar.Config.Accepted.{IsInit, new_config_iff, new_config-ok}
use dacar.Alias.{AliasEntry, self_alias, resolve}
use dacar.Alias.Naming.{resolve-set_self}
use dacar.Settings.{
  StoreConfig, config_validated, any_equal, without_old, with_new, rotate_identity, salt_new,
}

any_equal_iff : (as' : List Bytes) (h : Bytes) → (any_equal as' h ≡ true) ↔ In h as'
unfolding any_equal
any_equal_iff [] h = (λ e. ground arith, λ i. absurd i)
any_equal_iff (a ∷ as') h = elim (Bool-cases (bytes_equal a h)) [
  | inl same ↦ (λ e. inl (sym ((bytes_equal_iff a h).0 same)), λ i. ground arith)
  | inr other ↦ (
    λ e. inr ((any_equal_iff as' h).0 (ground arith)),
    λ i. elim i [
      | inl e ↦ absurd (ground (arith, (bytes_equal_iff a h).1 (sym e)))
      | inr j ↦ ground (arith, (any_equal_iff as' h).1 j)
    ],
  )
]

-- The old identity's hash, if there was an old identity.
abbrev pub IsOld : Option Bytes → Bytes → Type 0
IsOld none x = ⊥
IsOld (some old) x = x ≡ old

without_old_iff :
    (as' : List Bytes) (old : Option Bytes) (x : Bytes)
    → In x (without_old as' old) ↔ (In x as' × (IsOld old x → ⊥))
unfolding without_old
without_old_iff as' none x = (λ i. (i, λ j. j), λ i. i.0)
without_old_iff [] (some old) x = (λ i. absurd i, λ i. i.0)
without_old_iff (a ∷ as') (some old) x = elim (Bool-cases (bytes_equal a old)) [
  | inl gone ↦ rw gone (
    λ i. let r = (without_old_iff as' (some old) x).0 i in (inr (r.0), r.1),
    λ i. elim i.0 [
      | inl e ↦ absurd (i.1 (e ∙ (bytes_equal_iff a old).0 gone))
      | inr j ↦ (without_old_iff as' (some old) x).1 (j, i.1)
    ],
  )
  | inr stays ↦ rw stays (
    λ i. elim i [
      | inl e ↦ (inl e, λ o. ground (arith, (bytes_equal_iff a old).1 (sym e ∙ o)))
      | inr j ↦ let r = (without_old_iff as' (some old) x).0 j in (inr (r.0), r.1)
    ],
    λ i. elim i.0 [ inl e ↦ inl e | inr j ↦ inr ((without_old_iff as' (some old) x).1 (j, i.1)) ],
  )
]

with_new_iff : (as' : List Bytes) (new x : Bytes) → In x (with_new as' new) ↔ ((x ≡ new) ⊎ In x as')
unfolding with_new
with_new_iff as' new x = elim (Bool-cases (any_equal as' new)) [
  | inl there ↦ rw there (
    λ i. inr i,
    λ i. elim i [
      | inl e ↦ subst (λ y. In y as') (sym e) ((any_equal_iff as' new).0 there)
      | inr j ↦ j
    ],
  )
  | inr absent ↦ rw absent (
    λ i. elim ((In-append x as' (new ∷ [])).0 i) [
      | inl j ↦ inr j
      | inr j ↦ elim j [ inl e ↦ inl e | inr f ↦ absurd f ]
    ],
    λ i. (In-append x as' (new ∷ [])).1 (elim i [ inl e ↦ inr (inl e) | inr j ↦ inl j ]),
  )
]

In-some : (x : Bytes) (xs : List Bytes) → In x xs → xs ≢ []
In-some x [] i = absurd i
In-some x (y ∷ ys) i = λ e. cc

ok-injective : {A : Type 0} {a b : A} → ok a ≡ ok b → a ≡ b
ok-injective e = cc

module _ (p : Platform) where
  abbrev pub settings : StoreConfig → ConfigInit
  settings raw = record {
    root_trust_anchors = raw.anchors;
    primary_salt = some raw.primary_salt;
    legacy_salts = raw.legacy_salts;
    threshold_groups = [];
    authoritative_identity = raw.authoritative;
    deletion_horizon_days = some raw.horizon_days;
  }

  validated-IsInit :
      (raw : StoreConfig) (c : Config) → config_validated p raw ≡ ok c → IsInit (settings raw)
  unfolding config_validated
  validated-IsInit raw c e = (new_config_iff p (settings raw)).0 (c, e)

  -- Rotating the identity: the new hash is an anchor, the old one is none unless it is the new one,
  -- the other anchors stay, `self` stands for the new hash, and a configuration that was valid is
  -- valid with the new anchors.
  pub rotate_identity_moves :
      (old : Option Bytes) (new : Bytes) (raw : StoreConfig) (aliases : List AliasEntry)
      (c : Config)
      → config_validated p raw ≡ ok c
      → length new ≡ hash_size
      → ((x : Bytes)
          → In x (rotate_identity old new raw aliases).0.anchors
            ↔ ((x ≡ new) ⊎ (In x raw.anchors × (IsOld old x → ⊥))))
        × (resolve (rotate_identity old new raw aliases).1 self_alias ≡ some new)
        × (c' : Config) × (config_validated p (rotate_identity old new raw aliases).0 ≡ ok c')
  unfolding rotate_identity config_validated
  rotate_identity_moves old new raw aliases c valid size =
      let (c', made) =
        (new_config_iff p
            (settings (record raw { anchors = with_new (without_old raw.anchors old) new }))).1
          (record {
            some_anchor = In-some new _ ((anchors new).1 (inl refl));
            anchors = All-In _ sized;
            primary = before.primary;
            few = before.few;
            legacy = before.legacy;
            identity = before.identity;
            days = before.days;
          }) in
      (anchors, resolve-set_self aliases new, c', made)
    where
      before : IsInit (settings raw)
      before = validated-IsInit raw c valid

      anchors :
          (x : Bytes)
          → In x (with_new (without_old raw.anchors old) new)
            ↔ ((x ≡ new) ⊎ (In x raw.anchors × (IsOld old x → ⊥)))
      anchors x = (
        λ i. elim ((with_new_iff (without_old raw.anchors old) new x).0 i) [
          | inl e ↦ inl e
          | inr j ↦ inr ((without_old_iff raw.anchors old x).0 j)
        ],
        λ i.
            (with_new_iff (without_old raw.anchors old) new x).1
              (elim i [ inl e ↦ inl e | inr j ↦ inr ((without_old_iff raw.anchors old x).1 j) ]),
      )

      sized : (x : Bytes) → In x (with_new (without_old raw.anchors old) new) → length x ≡ hash_size
      sized x i = elim ((anchors x).0 i) [
        | inl e ↦ ap length e ∙ size
        | inr j ↦ In-All (λ a. length a ≡ hash_size) x raw.anchors before.anchors j.0
      ]

  -- Rotating the salt: a valid configuration stays valid, with the new salt and the same anchors,
  -- and what was granted under the last primary salt or the first legacy salt is still recognised.
  pub salt_new_keeps :
      (raw : StoreConfig) (random : Bytes) (c : Config)
      → config_validated p raw ≡ ok c
      → length random ≡ salt_size
      → (c' : Config) × (config_validated p (salt_new raw random) ≡ ok c')
        × (c'.primary_salt ≡ random)
        × (c'.root_trust_anchors ≡ c.root_trust_anchors)
        × In c.primary_salt c'.legacy_salts
        × ((x : Bytes) → In x (take 1 c.legacy_salts) → In x c'.legacy_salts)
  unfolding salt_new config_validated
  salt_new_keeps raw random c valid size =
      let before = validated-IsInit raw c valid in
      let (anchors, added, made) = new_config-ok p (settings raw) before in
      let (anchors', added', made') = new_config-ok p (settings (salt_new raw random)) (record {
        some_anchor = before.some_anchor;
        anchors = before.anchors;
        primary = size;
        few = few-legacy raw.legacy_salts;
        legacy = (before.primary, legacy-All raw.legacy_salts before.legacy);
        identity = before.identity;
        days = before.days;
      }) in
      let same = ok-injective (sym valid ∙ made) in
      (
        _,
        made',
        refl,
        ok-injective (sym added' ∙ added) ∙ ap (λ d. d.root_trust_anchors) (sym same),
        inl (ap (λ d. d.primary_salt) same),
        λ x i. inr (nested x raw.legacy_salts (subst (λ d. In x (take 1 d.legacy_salts)) same i)),
      )
    where
      few-legacy : (ss : List Bytes) → suc (length (take 1 (take 1 ss))) ≤ max_legacy_salts
      few-legacy [] = omega arith
      few-legacy (s ∷ ss) = omega arith

      legacy-All :
          (ss : List Bytes)
          → All (λ s. length s ≡ salt_size) ss
          → All (λ s. length s ≡ salt_size) (take 1 (take 1 ss))
      legacy-All [] h = tt
      legacy-All (s ∷ ss) h = (h.0, tt)

      nested : (x : Bytes) (ss : List Bytes) → In x (take 1 ss) → In x (take 1 (take 1 ss))
      nested x [] i = i
      nested x (s ∷ ss) i = i
