-- ===== src/Engine/Soundness.antt =====
-- The verdicts of engine.js are sound: an answer stands on a chain of active tuples.
use dacar.Common.{
  ℕ, zero, suc, ◌+◌, ◌≡◌, refl, subst, ◌∙◌, Bool, true, false, ltb, List, [], ◌∷◌, map, Bytes, Text,
  In, In-map, inl, inr, ◌⊎◌, arith, list_eq_iff, Bool-cases, Option-cases, some,
}
use dacar.Platform.{Platform, IsHex}
use dacar.Namespace.Covering.{Covers}
use dacar.Tuple.{Tuple}
use dacar.Crdt.{active_tuples}
use dacar.Config.{is_root_anchor, set_has}
use dacar.Engine.{
  Engine, Hypothesis, admin_hypothesis, memo_key, Work, Found, Resolution, deny, allow, none',
  is_allow, verdict, begin, candidates, consider_all, remember, known, authority_with, resolve_with,
  resolve_at, evaluate_hashes,
}
use dacar.Engine.Chains.{
  Matches, Authority, root, delegated, Granted, Denied, memo_key-injective, memo_key-admin,
}
use dacar.Engine.Considered.{IsSound, Answers, consider_all-IsFound, candidates-In}

set_has-cons :
    (k : Text) (ks : List Text) (t : Text)
    → set_has (k ∷ ks) t ≡ true
    → (k ≡ t) ⊎ (set_has ks t ≡ true)
unfolding set_has
set_has-cons k ks t h = ground (arith, list_eq_iff k t)

module _ (p : Platform) (hex : IsHex p) (e : Engine) (base : List Hypothesis) where
  -- The hypotheses of a level of the recursion ask for the same objects and reserved relation.
  record IsLevel (hs : List Hypothesis) : Type 0 where
    key : (issuer : Bytes) → memo_key p issuer hs ≡ memo_key p issuer base
    source :
        (h : Hypothesis)
        → In h hs
        → (g : Hypothesis) × In g base
          × (h.admin_allow_hash ≡ g.admin_allow_hash)
          × (h.object_hashes ≡ g.object_hashes)

  base-IsLevel : IsLevel base
  base-IsLevel = record { key = λ issuer. refl; source = λ h i. (h, i, refl, refl) }

  admin-IsLevel : (hs : List Hypothesis) → IsLevel hs → IsLevel (map admin_hypothesis hs)
  unfolding admin_hypothesis
  admin-IsLevel hs l = record {
    key = λ issuer. memo_key-admin p issuer hs ∙ l.key issuer;
    source = λ h i.
        let (g, j, same) = In-map admin_hypothesis h hs i in
        let (b, k, relation, objects) = l.source g j in
        (b, k, cc (same, relation), cc (same, objects));
  }

  Matches-same :
      (grantee r r' : Bytes) (os os' : List Bytes) (t : Tuple)
      → r ≡ r'
      → os ≡ os'
      → Matches e grantee r os t
      → Matches e grantee r' os' t
  Matches-same grantee r r' os os' t er eo m = record {
    active = m.active;
    holder = m.holder;
    names = m.names ∙ er;
    covering = subst (λ x. Covers t.object_hashes t.is_wildcard x) eo m.covering;
  }

  -- Who is granted the reserved relation has authority.
  Granted-Authority :
      (hs : List Hypothesis) (issuer : Bytes)
      → IsLevel hs
      → Granted p e base (map admin_hypothesis hs) issuer
      → Authority p e base issuer
  unfolding admin_hypothesis
  Granted-Authority hs issuer l g =
      let (h, i, same) = In-map admin_hypothesis g.by hs g.listed in
      let (b, j, relation, objects) = l.source h i in
      delegated issuer b g.tuple j
        (Matches-same issuer _ _ _ _ g.tuple (cc (same, relation)) (cc (same, objects)) g.fits)
        g.trusted

  -- What a function must do to stand for the resolution one hop further.
  abbrev Resolves : (List Hypothesis → Bytes → List Text → Work → Resolution × Work) → Type 0
  Resolves f =
      (hs : List Hypothesis) (grantee : Bytes) (visited : List Text) (w : Work)
      → IsLevel hs
      → IsSound p hex e base w
      → IsSound p hex e base (f hs grantee visited w).1
        × (is_allow (f hs grantee visited w).0 ≡ true → Granted p e base hs grantee)
        × ((f hs grantee visited w).0 ≡ deny → Denied p e base hs grantee)

  known-true :
      (issuer : Bytes) (hs : List Hypothesis) (visited : List Text) (too_deep : Bool) (w : Work)
      → known p e issuer hs visited too_deep w ≡ some true
      → (is_root_anchor p e.config issuer ≡ true) ⊎ (set_has w.memo (memo_key p issuer hs) ≡ true)
  unfolding known
  known-true issuer hs visited too_deep w h = ground arith

  memo-IsSound :
      (issuer : Bytes) (w : Work)
      → Authority p e base issuer
      → IsSound p hex e base w
      → IsSound p hex e base (record w { memo = memo_key p issuer base ∷ w.memo })
  memo-IsSound issuer w trusted sound other h =
      elim (set_has-cons (memo_key p issuer base) w.memo (memo_key p other base) h) [
        | inl same ↦
            subst (Authority p e base) (memo_key-injective p issuer other base hex same) trusted
        | inr old ↦ sound other old
      ]

  remember-Answers :
      (issuer : Bytes) (hs : List Hypothesis) (r : Resolution) (w : Work)
      → IsLevel hs
      → IsSound p hex e base w
      → (is_allow r ≡ true → Authority p e base issuer)
      → IsSound p hex e base (remember p e (memo_key p issuer hs) (r, w)).1
        × ((remember p e (memo_key p issuer hs) (r, w)).0 ≡ true → Authority p e base issuer)
  unfolding remember
  remember-Answers issuer hs deny w l sound trusted = (sound, λ h. cc)
  remember-Answers issuer hs none' w l sound trusted = (sound, λ h. cc)
  remember-Answers issuer hs allow w l sound trusted =
      (rw (l.key issuer) (memo-IsSound issuer w (trusted refl) sound), λ h. trusted refl)

  authority_with-Answers :
      (too_deep : Bool) (deeper : List Hypothesis → Bytes → List Text → Work → Resolution × Work)
      (hs : List Hypothesis) (visited : List Text)
      → Resolves deeper
      → IsLevel hs
      → Answers p hex e base (authority_with p e too_deep deeper hs visited)
  unfolding authority_with
  authority_with-Answers too_deep deeper hs visited resolves l issuer w sound =
      elim (Option-cases (known p e issuer hs visited too_deep w)) [
        | inl open' ↦
            let (kept, granted, _) =
              resolves (map admin_hypothesis hs) issuer (p.to_hex issuer ∷ visited) w
                (admin-IsLevel hs l) sound in
            rw (open', authority_with)
              (remember-Answers issuer hs _ _ l kept
                (λ h. Granted-Authority hs issuer l (granted h)))
        | inr (b, closed) ↦ rw (closed, authority_with) (sound, λ h. settled b closed h)
      ]
    where
      settled :
          (b : Bool)
          → known p e issuer hs visited too_deep w ≡ some b
          → b ≡ true
          → Authority p e base issuer
      settled true closed h = elim (known-true issuer hs visited too_deep w closed) [
        | inl anchor ↦ root issuer anchor
        | inr old ↦ sound issuer (rw (l.key issuer) at old)
      ]
      settled false closed h = cc

  verdict-allow : (f : Found) → is_allow (verdict f) ≡ true → f.allow_valid ≡ true
  verdict-allow f h = ground arith

  verdict-deny : (f : Found) → verdict f ≡ deny → f.deny_valid ≡ true
  verdict-deny f h = ground arith

  resolve_with-Resolves :
      (too_deep : Bool) (deeper : List Hypothesis → Bytes → List Text → Work → Resolution × Work)
      → Resolves deeper
      → Resolves (resolve_with p e too_deep deeper)
  unfolding resolve_with begin
  resolve_with-Resolves too_deep deeper resolves hs grantee visited w l sound =
      elim (Bool-cases (ltb e.max_visited (w.counter + 1))) [
        | inl over ↦ rw over (sound, (λ h. cc), (λ h. cc))
        | inr within ↦
            let answers = authority_with-Answers too_deep deeper hs visited resolves l in
            let v =
              consider_all-IsFound p hex e base (authority_with p e too_deep deeper hs visited)
                answers hs grantee (candidates p (active_tuples e.state) grantee)
                (record { deny_valid = false; allow_valid = false; work = begin w })
                (candidates-In p hex e base (active_tuples e.state) grantee)
                (record { sound = sound; denied = λ h. cc; allowed = λ h. cc }) in
            let f : Found =
              consider_all (authority_with p e too_deep deeper hs visited)
                (candidates p (active_tuples e.state) grantee) hs
                (record { deny_valid = false; allow_valid = false; work = begin w }) in
            rw within
              (v.sound, (λ h. v.allowed (verdict-allow f h)), (λ h. v.denied (verdict-deny f h)))
      ]

  resolve_at-Resolves : (hops : ℕ) → Resolves (resolve_at p e hops)
  unfolding resolve_at
  resolve_at-Resolves zero =
      resolve_with-Resolves true _ (λ hs grantee visited w l sound. (sound, (λ h. cc), (λ h. cc)))
  resolve_at-Resolves (suc hops) =
      resolve_with-Resolves false (resolve_at p e hops) (resolve_at-Resolves hops)

  -- A request is allowed only if an active tuple grants the relation to the grantee under one of
  -- the hypotheses, covers its objects, and was issued by a root anchor or at the end of a chain of
  -- active `admin` tuples over the objects that a root anchor starts.
  pub evaluate_hashes_sound :
      (grantee : Bytes) → evaluate_hashes p e grantee base ≡ true → Granted p e base base grantee
  unfolding evaluate_hashes set_has
  evaluate_hashes_sound grantee h =
      (resolve_at-Resolves e.max_depth base grantee [] (record { memo = []; counter = 0 })
          base-IsLevel (λ issuer x. cc)).1
        h
