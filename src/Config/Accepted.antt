-- ===== src/Config/Accepted.antt =====
-- Which settings the constructor of config.js accepts.
use dacar.Common.{
  ◌≤◌, ◌≡◌, ◌≢◌, ◌↔◌, ◌∙◌, inl, inr, refl, sym, subst, true, In, map, Result, err, not, ltb, leb,
  ◌==◌, List, [], ◌∷◌, Option, none, some, Bytes, Text, length, All, arith, ok, require, error,
  >>=-eq-ok, require-eq-ok,
}
use dacar.Platform.{Platform}
use dacar.Value.{map_result}
use dacar.Namespace.{hash_size, salt_size, default_salt, max_legacy_salts}
use dacar.Config.{
  Config, ConfigInit, new_config, add_anchors, check_salt, check_identity, or_default,
  default_deletion_horizon_days,
}
use dacar.Config.Anchors.{add_anchors-All, add_anchors-some, no_anchors, add_anchors_iff}

abbrev pub IsIdentity : Option Bytes → Type 0
IsIdentity none = Unit
IsIdentity (some i) = length i ≡ hash_size

-- An anchor at least, hashes of 16 bytes, salts of 32, at most two legacy salts and a day at least.
pub record IsInit (init : ConfigInit) : Type 0 where
  pub some_anchor : init.root_trust_anchors ≢ []
  pub anchors : All (λ a. length a ≡ hash_size) init.root_trust_anchors
  pub primary : length (or_default init.primary_salt default_salt) ≡ salt_size
  pub few : length init.legacy_salts ≤ max_legacy_salts
  pub legacy : All (λ s. length s ≡ salt_size) init.legacy_salts
  pub identity : IsIdentity init.authoritative_identity
  pub days : 1 ≤ or_default init.deletion_horizon_days default_deletion_horizon_days

-- What a configuration keeps of its settings.
pub record Holds (p : Platform) (init : ConfigInit) (c : Config) : Type 0 where
  pub anchors : (x : Text) → In x c.root_trust_anchors ↔ In x (map p.to_hex init.root_trust_anchors)
  pub primary : c.primary_salt ≡ or_default init.primary_salt default_salt
  pub legacy : c.legacy_salts ≡ init.legacy_salts
  pub groups : c.threshold_groups ≡ init.threshold_groups
  pub identity : c.authoritative_identity ≡ init.authoritative_identity
  pub days :
      c.deletion_horizon_days ≡ or_default init.deletion_horizon_days default_deletion_horizon_days

ok-injective : {A : Type 0} {a b : A} → ok a ≡ ok b → a ≡ b
ok-injective e = cc

check_salt_iff : (s t : Bytes) → (check_salt s ≡ ok t) ↔ ((length s ≡ salt_size) × (s ≡ t))
unfolding check_salt
check_salt_iff s t = (λ e. (ground arith, ground arith), λ (h, e). ground arith)

salts-All :
    (ss ts : List Bytes) → map_result check_salt ss ≡ ok ts → All (λ s. length s ≡ salt_size) ss
unfolding map_result check_salt
salts-All [] ts e = tt
salts-All (s ∷ ss) ts e =
    let (t, checked, rest) = >>=-eq-ok (check_salt s) _ e in
    let (us, checked', rest') = >>=-eq-ok (map_result check_salt ss) _ rest in
    (((check_salt_iff s t).0 checked).0, salts-All ss us checked')

All-salts :
    (ss : List Bytes) → All (λ s. length s ≡ salt_size) ss → map_result check_salt ss ≡ ok ss
unfolding map_result
All-salts [] h = refl
All-salts (s ∷ ss) h = rw ((check_salt_iff s s).1 (h.0, refl), All-salts ss h.1) refl

check_identity_iff : (i : Option Bytes) → (check_identity i ≡ ok i) ↔ IsIdentity i
unfolding check_identity
check_identity_iff none = (λ e. tt, λ h. refl)
check_identity_iff (some i) = (λ e. ground arith, λ h. ground arith)

check_identity-IsIdentity : (i j : Option Bytes) → check_identity i ≡ ok j → IsIdentity i
unfolding check_identity
check_identity-IsIdentity none j e = tt
check_identity-IsIdentity (some i) j e = ground arith

module _ (p : Platform) where
  -- What the constructor returns for settings that it accepts.
  pub new_config-ok :
      (init : ConfigInit)
      → IsInit init
      → (anchors : List Text) × (add_anchors p [] init.root_trust_anchors ≡ ok anchors)
        × (new_config p init
            ≡ ok (record {
              root_trust_anchors = anchors;
              primary_salt = or_default init.primary_salt default_salt;
              legacy_salts = init.legacy_salts;
              threshold_groups = init.threshold_groups;
              authoritative_identity = init.authoritative_identity;
              deletion_horizon_days =
                  or_default init.deletion_horizon_days default_deletion_horizon_days;
            }))
  unfolding new_config
  new_config-ok init v =
      let (anchors, added, some') =
        add_anchors-some p init.root_trust_anchors v.some_anchor v.anchors in
      let primary =
        (check_salt_iff (or_default init.primary_salt default_salt) _).1 (v.primary, refl) in
      let t1 : not (length anchors == 0) ≡ true = ground arith in
      let t2 : not (ltb max_legacy_salts (length init.legacy_salts)) ≡ true =
        ground (arith, v.few) in
      let t3 : leb 1 (or_default init.deletion_horizon_days default_deletion_horizon_days) ≡ true =
        ground (arith, v.days) in
      (
        anchors,
        added,
        rw (added, t1)
            (rw (primary, t2)
              (rw
                (
                  All-salts init.legacy_salts v.legacy,
                  (check_identity_iff init.authoritative_identity).1 v.identity,
                  t3,
                )
                refl)),
      )

  new_config-IsInit : (init : ConfigInit) (c : Config) → new_config p init ≡ ok c → IsInit init
  unfolding new_config
  new_config-IsInit init c e =
      let (anchors, e1, r1) = >>=-eq-ok (add_anchors p [] init.root_trust_anchors) _ e in
      let (u1, e2, r2) = >>=-eq-ok (require (not (length anchors == 0)) error) _ r1 in
      let (primary, e3, r3) =
        >>=-eq-ok (check_salt (or_default init.primary_salt default_salt)) _ r2 in
      let (u2, e4, r4) =
        >>=-eq-ok (require (not (ltb max_legacy_salts (length init.legacy_salts))) error) _ r3 in
      let (legacy, e5, r5) = >>=-eq-ok (map_result check_salt init.legacy_salts) _ r4 in
      let (identity, e6, r6) = >>=-eq-ok (check_identity init.authoritative_identity) _ r5 in
      let (u3, e7, r7) =
        >>=-eq-ok
          (require (leb 1 (or_default init.deletion_horizon_days default_deletion_horizon_days))
            error)
          _ r6 in
      record {
        some_anchor = λ none'. ground (
          arith,
          require-eq-ok (not (length anchors == 0)) error e2,
          no_anchors p init.root_trust_anchors anchors none' e1,
        );
        anchors = add_anchors-All p [] anchors init.root_trust_anchors e1;
        primary = ((check_salt_iff (or_default init.primary_salt default_salt) primary).0 e3).0;
        few =
            ground (
              arith,
              require-eq-ok (not (ltb max_legacy_salts (length init.legacy_salts))) error e4,
            );
        legacy = salts-All init.legacy_salts legacy e5;
        identity = check_identity-IsIdentity init.authoritative_identity identity e6;
        days = ground (
          arith,
          require-eq-ok
              (leb 1 (or_default init.deletion_horizon_days default_deletion_horizon_days)) error
              e7,
        );
      }

  pub new_config_iff :
      (init : ConfigInit) → ((c : Config) × (new_config p init ≡ ok c)) ↔ IsInit init
  new_config_iff init = (
    λ (c, e). new_config-IsInit init c e,
    λ v. let (anchors, added, made) = new_config-ok init v in (_, made),
  )

  -- Valid settings make the configuration that holds them, and others make an error.
  abbrev pub Decided : ConfigInit → Result Config → Type 0
  Decided init (ok c) = IsInit init × Holds p init c
  Decided init (err e) = IsInit init → ⊥

  new_config-Holds :
      (init : ConfigInit) → IsInit init → (c : Config) × (new_config p init ≡ ok c) × Holds p init c
  new_config-Holds init v =
      let (anchors, added, made) = new_config-ok init v in
      (
        _,
        made,
        record {
          anchors = λ x.
              let (forth, back) = add_anchors_iff p [] anchors init.root_trust_anchors x added in
              (λ i. elim (forth i) [ inl j ↦ absurd j | inr j ↦ j ], λ j. back (inr j));
          primary = refl;
          legacy = refl;
          groups = refl;
          identity = refl;
          days = refl;
        },
      )

  -- The constructor returns a configuration exactly for settings with an anchor at least, whose
  -- anchors are of 16 bytes, and the authority too if there is one, whose salts are of 32 bytes, with
  -- at most two legacy salts and a horizon of a day at least. The configuration holds the hexadecimal
  -- texts of the anchors as a set, and the other settings as they are given, with the defaults where
  -- the primary salt or the horizon is left out.
  pub new_config_decides : (init : ConfigInit) → Decided init (new_config p init)
  new_config_decides init = go (new_config p init) refl
    where
      go : (r : Result Config) → new_config p init ≡ r → Decided init r
      go (ok c) e =
          let v = new_config-IsInit init c e in
          let (c', made, holds) = new_config-Holds init v in
          let same : c' ≡ c = ok-injective (sym made ∙ e) in (v, subst (Holds p init) same holds)
      go (err f) e = λ v. let (c, made, holds) = new_config-Holds init v in cc
