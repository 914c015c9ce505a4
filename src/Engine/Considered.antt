-- ===== src/Engine/Considered.antt =====
-- What the loops of engine.js over the candidate tuples and the hypotheses have found is so, if the
-- function that they ask about an issuer answers rightly.
use dacar.Common.{
  ◌≡◌, refl, ap, ◌∙◌, Bool, true, ◌||◌, List, [], ◌∷◌, Bytes, In, inl, inr, ◌⊎◌, arith, list_eq,
  list_eq→eq, Bool-cases,
}
use dacar.Platform.{Platform, IsHex}
use dacar.Namespace.{bytes_equal, covers}
use dacar.Namespace.Bits.{bytes_equal_iff}
use dacar.Namespace.Covering.{covers_iff}
use dacar.Tuple.{Tuple}
use dacar.Crdt.{active_tuples}
use dacar.Config.{set_has}
use dacar.Engine.{
  Engine, Hypothesis, memo_key, Work, Found, candidates, consider, consider_hypotheses,
  consider_all,
}
use dacar.Engine.Chains.{Authority, Granted, Denied}

or_true : (a b : Bool) → (a || b) ≡ true → (a ≡ true) ⊎ (b ≡ true)
or_true a b h = ground arith

module _ (p : Platform) (hex : IsHex p) (e : Engine) (base : List Hypothesis) where
  -- The memo remembers only issuers with authority.
  abbrev pub IsSound : Work → Type 0
  IsSound w =
      (issuer : Bytes) → set_has w.memo (memo_key p issuer base) ≡ true → Authority p e base issuer

  -- What a function must do to stand for `authority`.
  abbrev pub Answers : (Bytes → Work → Bool × Work) → Type 0
  Answers f =
      (issuer : Bytes) (w : Work)
      → IsSound w
      → IsSound (f issuer w).1 × ((f issuer w).0 ≡ true → Authority p e base issuer)

  -- What has been found about the grantee is so.
  pub record IsFound (hs : List Hypothesis) (grantee : Bytes) (f : Found) : Type 0 where
    pub sound : IsSound f.work
    pub denied : f.deny_valid ≡ true → Denied p e base hs grantee
    pub allowed : f.allow_valid ≡ true → Granted p e base hs grantee

  module _ (authority : Bytes → Work → Bool × Work) (answers : Answers authority) where
    consider_deny :
        (hs : List Hypothesis) (grantee : Bytes) (t : Tuple) (h : Hypothesis) (f : Found)
        → In h hs
        → In t (active_tuples e.state)
        → t.grantee ≡ grantee
        → t.relation_hash ≡ h.deny_relation_hash
        → covers t.object_hashes t.is_wildcard h.object_hashes ≡ true
        → IsFound hs grantee f
        → IsFound hs grantee (record {
          deny_valid = f.deny_valid || (authority t.issuer f.work).0;
          allow_valid = f.allow_valid;
          work = (authority t.issuer f.work).1;
        })
    consider_deny hs grantee t h f listed active holder names over v =
        let (sound, trusted) = answers t.issuer f.work v.sound in
        record {
          sound = sound;
          denied = λ d. elim (or_true f.deny_valid _ d) [
            | inl old ↦ v.denied old
            | inr new ↦ record {
              by = h;
              listed = listed;
              tuple = t;
              fits = record {
                active = active;
                holder = holder;
                names = names;
                covering = (covers_iff _ _ _).0 over;
              };
              trusted = trusted new;
            }
          ];
          allowed = v.allowed;
        }

    consider_allow :
        (hs : List Hypothesis) (grantee : Bytes) (t : Tuple) (h : Hypothesis) (f : Found)
        → In h hs
        → In t (active_tuples e.state)
        → t.grantee ≡ grantee
        → t.relation_hash ≡ h.allow_relation_hash
        → covers t.object_hashes t.is_wildcard h.object_hashes ≡ true
        → IsFound hs grantee f
        → IsFound hs grantee (record {
          deny_valid = f.deny_valid;
          allow_valid = f.allow_valid || (authority t.issuer f.work).0;
          work = (authority t.issuer f.work).1;
        })
    consider_allow hs grantee t h f listed active holder names over v =
        let (sound, trusted) = answers t.issuer f.work v.sound in
        record {
          sound = sound;
          denied = v.denied;
          allowed = λ d. elim (or_true f.allow_valid _ d) [
            | inl old ↦ v.allowed old
            | inr new ↦ record {
              by = h;
              listed = listed;
              tuple = t;
              fits = record {
                active = active;
                holder = holder;
                names = names;
                covering = (covers_iff _ _ _).0 over;
              };
              trusted = trusted new;
            }
          ];
        }

    consider-IsFound :
        (hs : List Hypothesis) (grantee : Bytes) (t : Tuple) (h : Hypothesis) (f : Found)
        → In h hs
        → In t (active_tuples e.state)
        → t.grantee ≡ grantee
        → IsFound hs grantee f
        → IsFound hs grantee (consider authority t h f)
    unfolding consider
    consider-IsFound hs grantee t h f listed active holder v =
        elim (Bool-cases (bytes_equal t.relation_hash h.deny_relation_hash)) [
          | inl d ↦ elim (Bool-cases (covers t.object_hashes t.is_wildcard h.object_hashes)) [
            | inl c ↦
                rw (d, c)
                  (consider_deny hs grantee t h f listed active holder ((bytes_equal_iff _ _).0 d) c
                    v)
            | inr c ↦ rw (d, c) v
          ]
          | inr d ↦ elim (Bool-cases (bytes_equal t.relation_hash h.allow_relation_hash)) [
            | inl a ↦ elim (Bool-cases (covers t.object_hashes t.is_wildcard h.object_hashes)) [
              | inl c ↦
                  rw (d, a, c)
                    (consider_allow hs grantee t h f listed active holder
                      ((bytes_equal_iff _ _).0 a) c v)
              | inr c ↦ rw (d, a, c) v
            ]
            | inr a ↦ rw (d, a) v
          ]
        ]

    consider_hypotheses-IsFound :
        (hs rest : List Hypothesis) (grantee : Bytes) (t : Tuple) (f : Found)
        → ((h : Hypothesis) → In h rest → In h hs)
        → In t (active_tuples e.state)
        → t.grantee ≡ grantee
        → IsFound hs grantee f
        → IsFound hs grantee (consider_hypotheses authority t rest f)
    unfolding consider_hypotheses
    consider_hypotheses-IsFound hs [] grantee t f part active holder v = v
    consider_hypotheses-IsFound hs (h ∷ rest) grantee t f part active holder v =
        consider_hypotheses-IsFound hs rest grantee t (consider authority t h f)
          (λ g i. part g (inr i)) active holder
          (consider-IsFound hs grantee t h f (part h (inl refl)) active holder v)

    pub consider_all-IsFound :
        (hs : List Hypothesis) (grantee : Bytes) (ts : List Tuple) (f : Found)
        → ((t : Tuple) → In t ts → In t (active_tuples e.state) × (t.grantee ≡ grantee))
        → IsFound hs grantee f
        → IsFound hs grantee (consider_all authority ts hs f)
    unfolding consider_all
    consider_all-IsFound hs grantee [] f part v = v
    consider_all-IsFound hs grantee (t ∷ ts) f part v =
        let (active, holder) = part t (inl refl) in
        consider_all-IsFound hs grantee ts (consider_hypotheses authority t hs f)
          (λ u i. part u (inr i))
          (consider_hypotheses-IsFound hs hs grantee t f (λ h i. i) active holder v)

  pub candidates-In :
      (ts : List Tuple) (grantee : Bytes) (t : Tuple)
      → In t (candidates p ts grantee)
      → In t ts × (t.grantee ≡ grantee)
  unfolding candidates
  candidates-In [] grantee t i = absurd i
  candidates-In (u ∷ ts) grantee t i =
      elim (Bool-cases (list_eq (p.to_hex u.grantee) (p.to_hex grantee))) [
        | inl same ↦
            head (hex.to_hex-injective _ _ (list_eq→eq _ _ same)) (candidates-In ts grantee t)
              (rw (same, candidates) at i)
        | inr other ↦
            let (j, holder) = candidates-In ts grantee t (rw (other, candidates) at i) in
            (inr j, holder)
      ]
    where
      head :
          u.grantee ≡ grantee
          → (In t (candidates p ts grantee) → In t ts × (t.grantee ≡ grantee))
          → In t (u ∷ candidates p ts grantee)
          → In t (u ∷ ts) × (t.grantee ≡ grantee)
      head holder later (inl here) = (inl here, ap (λ (x : Tuple). x.grantee) here ∙ holder)
      head holder later (inr j) = let (k, h) = later j in (inr k, h)
