-- ===== src/Engine/Grants.antt =====
-- The positive answers of engine.js: where nothing denies, a root anchor's grant is enough.
use dacar.Common.{
  ◌≤◌, ◌≡◌, refl, subst, ◌∙◌, Bool, true, false, List, [], ◌∷◌, Bytes, In, In-All, All, inl, inr,
  arith, list_eq, list_eq→eq, Bool-cases,
}
use dacar.Platform.{Platform, IsHex}
use dacar.Namespace.{bytes_equal, covers}
use dacar.Namespace.Bits.{bytes_equal_iff}
use dacar.Namespace.Covering.{covers_iff}
use dacar.Tuple.{Tuple}
use dacar.Crdt.{active_tuples}
use dacar.Config.{is_root_anchor}
use dacar.Engine.{
  Engine, Hypothesis, Work, Found, candidates, consider, consider_hypotheses, consider_all,
  authority_with, evaluate_hashes,
}
use dacar.Engine.Chains.{Matches}
use dacar.Engine.Verdicts.{Trusts, top, evaluate_top, root-Trusts, In-candidates}

-- The tuple is no denial of this hypothesis.
abbrev pub Spares : Tuple → Hypothesis → Type 0
Spares t h = bytes_equal t.relation_hash h.deny_relation_hash ≡ false

module _ (authority : Bytes → Work → Bool × Work) where
  Spares-consider :
      (t : Tuple) (h : Hypothesis) (f : Found)
      → Spares t h
      → f.deny_valid ≡ false
      → (consider authority t h f).deny_valid ≡ false
  unfolding consider
  Spares-consider t h f s d = ground arith

  Spares-consider_hypotheses :
      (t : Tuple) (hs : List Hypothesis) (f : Found)
      → All (Spares t) hs
      → f.deny_valid ≡ false
      → (consider_hypotheses authority t hs f).deny_valid ≡ false
  unfolding consider_hypotheses
  Spares-consider_hypotheses t [] f s d = d
  Spares-consider_hypotheses t (h ∷ hs) f s d =
      Spares-consider_hypotheses t hs (consider authority t h f) s.1 (Spares-consider t h f s.0 d)

  Spares-consider_all :
      (ts : List Tuple) (hs : List Hypothesis) (f : Found)
      → All (λ t. All (Spares t) hs) ts
      → f.deny_valid ≡ false
      → (consider_all authority ts hs f).deny_valid ≡ false
  unfolding consider_all
  Spares-consider_all [] hs f s d = d
  Spares-consider_all (t ∷ ts) hs f s d =
      Spares-consider_all ts hs (consider_hypotheses authority t hs f) s.1
        (Spares-consider_hypotheses t hs f s.0 d)

  allow-consider :
      (t : Tuple) (h : Hypothesis) (f : Found)
      → f.allow_valid ≡ true
      → (consider authority t h f).allow_valid ≡ true
  unfolding consider
  allow-consider t h f a = ground arith

  allow-consider_hypotheses :
      (t : Tuple) (hs : List Hypothesis) (f : Found)
      → f.allow_valid ≡ true
      → (consider_hypotheses authority t hs f).allow_valid ≡ true
  unfolding consider_hypotheses
  allow-consider_hypotheses t [] f a = a
  allow-consider_hypotheses t (h ∷ hs) f a =
      allow-consider_hypotheses t hs (consider authority t h f) (allow-consider t h f a)

  allow-consider_all :
      (ts : List Tuple) (hs : List Hypothesis) (f : Found)
      → f.allow_valid ≡ true
      → (consider_all authority ts hs f).allow_valid ≡ true
  unfolding consider_all
  allow-consider_all [] hs f a = a
  allow-consider_all (t ∷ ts) hs f a =
      allow-consider_all ts hs (consider_hypotheses authority t hs f)
        (allow-consider_hypotheses t hs f a)

  -- The tuple grants the hypothesis' relation over its objects, and does not deny it.
  abbrev Grants : Tuple → Hypothesis → Type 0
  Grants t h =
      Spares t h
      × (bytes_equal t.relation_hash h.allow_relation_hash ≡ true)
      × (covers t.object_hashes t.is_wildcard h.object_hashes ≡ true)

  Grants-consider :
      (t : Tuple) (h : Hypothesis) (f : Found)
      → Grants t h
      → Trusts authority t.issuer
      → (consider authority t h f).allow_valid ≡ true
  unfolding consider
  Grants-consider t h f g trusts = ground (arith, trusts f.work)

  Grants-consider_hypotheses :
      (t : Tuple) (h : Hypothesis) (hs : List Hypothesis) (f : Found)
      → In h hs
      → Grants t h
      → Trusts authority t.issuer
      → (consider_hypotheses authority t hs f).allow_valid ≡ true
  unfolding consider_hypotheses
  Grants-consider_hypotheses t h [] f i g trusts = absurd i
  Grants-consider_hypotheses t h (x ∷ hs) f (inl same) g trusts =
      allow-consider_hypotheses t hs (consider authority t x f) (
        subst (λ y. (consider authority t y f).allow_valid ≡ true) same
          (Grants-consider t h f g trusts))
  Grants-consider_hypotheses t h (x ∷ hs) f (inr i) g trusts =
      Grants-consider_hypotheses t h hs (consider authority t x f) i g trusts

  Grants-consider_all :
      (t : Tuple) (ts : List Tuple) (h : Hypothesis) (hs : List Hypothesis) (f : Found)
      → In t ts
      → In h hs
      → Grants t h
      → Trusts authority t.issuer
      → (consider_all authority ts hs f).allow_valid ≡ true
  unfolding consider_all
  Grants-consider_all t [] h hs f j i g trusts = absurd j
  Grants-consider_all t (u ∷ ts) h hs f (inl same) i g trusts =
      allow-consider_all ts hs (consider_hypotheses authority u hs f) (
        subst (λ x. (consider_hypotheses authority x hs f).allow_valid ≡ true) same
          (Grants-consider_hypotheses t h hs f i g trusts))
  Grants-consider_all t (u ∷ ts) h hs f (inr j) i g trusts =
      Grants-consider_all t ts h hs (consider_hypotheses authority u hs f) j i g trusts

All-candidates :
    (p : Platform) (P : Tuple → Type 0) (ts : List Tuple) (grantee : Bytes)
    → IsHex p
    → ((t : Tuple) → In t ts → t.grantee ≡ grantee → P t)
    → All P (candidates p ts grantee)
unfolding candidates
All-candidates p P [] grantee hex h = tt
All-candidates p P (t ∷ ts) grantee hex h =
    let rest = All-candidates p P ts grantee hex (λ u i. h u (inr i)) in
    elim (Bool-cases (list_eq (p.to_hex t.grantee) (p.to_hex grantee))) [
      | inl same ↦
          rw (same, candidates)
            (h t (inl refl) (hex.to_hex-injective _ _ (list_eq→eq _ _ same)), rest)
      | inr other ↦ rw (other, candidates) rest
    ]

-- If one resolution at least is permitted, no active tuple of the grantee names a denial of a
-- hypothesis, and one that a root anchor issued grants the relation of a hypothesis and covers its
-- objects, the answer is yes.
pub root_grant_allows :
    (p : Platform) (e : Engine) (grantee : Bytes) (hs : List Hypothesis) (h : Hypothesis)
    (t : Tuple)
    → IsHex p
    → 1 ≤ e.max_visited
    → ((u : Tuple) → In u (active_tuples e.state) → u.grantee ≡ grantee → All (Spares u) hs)
    → In h hs
    → Matches e grantee h.allow_relation_hash h.object_hashes t
    → is_root_anchor p e.config t.issuer ≡ true
    → evaluate_hashes p e grantee hs ≡ true
root_grant_allows p e grantee hs h t hex work spares listed m anchor =
    let (too_deep, deeper, same) = evaluate_top p e grantee hs in
    let authority = authority_with p e too_deep deeper hs [] in
    let spared : (top p e too_deep deeper grantee hs).deny_valid ≡ false =
      Spares-consider_all authority (candidates p (active_tuples e.state) grantee) hs _
        (All-candidates p (λ u. All (Spares u) hs) (active_tuples e.state) grantee hex spares)
        refl in
    let granted : (top p e too_deep deeper grantee hs).allow_valid ≡ true =
      Grants-consider_all authority t (candidates p (active_tuples e.state) grantee) h hs _
        (In-candidates p e t (active_tuples e.state) grantee m.active m.holder) listed
        (
          In-All (Spares t) h hs (spares t m.active m.holder) listed,
          (bytes_equal_iff _ _).1 m.names,
          (covers_iff _ _ _).1 m.covering,
        )
        (root-Trusts p e too_deep deeper hs [] t.issuer anchor) in
    same ∙ ground (arith, spared, granted)
