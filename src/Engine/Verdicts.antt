-- ===== src/Engine/Verdicts.antt =====
-- The order of the verdicts of engine.js: a valid denial beats every grant, a grant by a root
-- anchor is enough where nothing denies, and without a grant the answer is no.
use dacar.Common.{
  ℕ, zero, suc, ◌≡◌, refl, subst, ◌∙◌, Bool, true, false, ltb, if◌then◌else◌, List, [], ◌∷◌, Bytes,
  Text, In, inl, inr, arith, list_eq, list_eq_iff, Bool-cases, some,
}
use dacar.Platform.{Platform}
use dacar.Namespace.{bytes_equal, covers}
use dacar.Namespace.Bits.{bytes_equal_iff}
use dacar.Namespace.Covering.{covers_iff}
use dacar.Tuple.{Tuple}
use dacar.Crdt.{active_tuples}
use dacar.Config.{is_root_anchor}
use dacar.Engine.{
  Engine, Hypothesis, Work, Found, Resolution, none', is_allow, verdict, begin, candidates,
  consider, consider_hypotheses, consider_all, known, authority_with, resolve_with, resolve_at,
  evaluate_hashes,
}
use dacar.Engine.Chains.{Matches}

-- `f` says yes of this issuer, whatever has been done before.
abbrev pub Trusts : (Bytes → Work → Bool × Work) → Bytes → Type 0
Trusts f issuer = (w : Work) → (f issuer w).0 ≡ true

module _ (authority : Bytes → Work → Bool × Work) where
  deny-consider :
      (t : Tuple) (h : Hypothesis) (f : Found)
      → f.deny_valid ≡ true
      → (consider authority t h f).deny_valid ≡ true
  unfolding consider
  deny-consider t h f d = ground arith

  deny-consider_hypotheses :
      (t : Tuple) (hs : List Hypothesis) (f : Found)
      → f.deny_valid ≡ true
      → (consider_hypotheses authority t hs f).deny_valid ≡ true
  unfolding consider_hypotheses
  deny-consider_hypotheses t [] f d = d
  deny-consider_hypotheses t (h ∷ hs) f d =
      deny-consider_hypotheses t hs (consider authority t h f) (deny-consider t h f d)

  deny-consider_all :
      (ts : List Tuple) (hs : List Hypothesis) (f : Found)
      → f.deny_valid ≡ true
      → (consider_all authority ts hs f).deny_valid ≡ true
  unfolding consider_all
  deny-consider_all [] hs f d = d
  deny-consider_all (t ∷ ts) hs f d =
      deny-consider_all ts hs (consider_hypotheses authority t hs f)
        (deny-consider_hypotheses t hs f d)

  -- The tuple denies the hypothesis' relation over its objects.
  abbrev Denies : Tuple → Hypothesis → Type 0
  Denies t h =
      (bytes_equal t.relation_hash h.deny_relation_hash ≡ true)
      × (covers t.object_hashes t.is_wildcard h.object_hashes ≡ true)

  Denies-consider :
      (t : Tuple) (h : Hypothesis) (f : Found)
      → Denies t h
      → Trusts authority t.issuer
      → (consider authority t h f).deny_valid ≡ true
  unfolding consider
  Denies-consider t h f d trusts = ground (arith, trusts f.work)

  Denies-consider_hypotheses :
      (t : Tuple) (h : Hypothesis) (hs : List Hypothesis) (f : Found)
      → In h hs
      → Denies t h
      → Trusts authority t.issuer
      → (consider_hypotheses authority t hs f).deny_valid ≡ true
  unfolding consider_hypotheses
  Denies-consider_hypotheses t h [] f i d trusts = absurd i
  Denies-consider_hypotheses t h (g ∷ hs) f (inl same) d trusts =
      deny-consider_hypotheses t hs (consider authority t g f) (
        subst (λ x. (consider authority t x f).deny_valid ≡ true) same
          (Denies-consider t h f d trusts))
  Denies-consider_hypotheses t h (g ∷ hs) f (inr i) d trusts =
      Denies-consider_hypotheses t h hs (consider authority t g f) i d trusts

  Denies-consider_all :
      (t : Tuple) (ts : List Tuple) (h : Hypothesis) (hs : List Hypothesis) (f : Found)
      → In t ts
      → In h hs
      → Denies t h
      → Trusts authority t.issuer
      → (consider_all authority ts hs f).deny_valid ≡ true
  unfolding consider_all
  Denies-consider_all t [] h hs f j i d trusts = absurd j
  Denies-consider_all t (u ∷ ts) h hs f (inl same) i d trusts =
      deny-consider_all ts hs (consider_hypotheses authority u hs f) (
        subst (λ x. (consider_hypotheses authority x hs f).deny_valid ≡ true) same
          (Denies-consider_hypotheses t h hs f i d trusts))
  Denies-consider_all t (u ∷ ts) h hs f (inr j) i d trusts =
      Denies-consider_all t ts h hs (consider_hypotheses authority u hs f) j i d trusts

module _ (p : Platform) (e : Engine) where
  known_root :
      (issuer : Bytes) (hs : List Hypothesis) (visited : List Text) (too_deep : Bool) (w : Work)
      → is_root_anchor p e.config issuer ≡ true
      → known p e issuer hs visited too_deep w ≡ some true
  unfolding known
  known_root issuer hs visited too_deep w anchor = ground arith

  pub root-Trusts :
      (too_deep : Bool) (deeper : List Hypothesis → Bytes → List Text → Work → Resolution × Work)
      (hs : List Hypothesis) (visited : List Text) (issuer : Bytes)
      → is_root_anchor p e.config issuer ≡ true
      → Trusts (authority_with p e too_deep deeper hs visited) issuer
  unfolding authority_with
  root-Trusts too_deep deeper hs visited issuer anchor w =
      rw (known_root issuer hs visited too_deep w anchor, authority_with) refl

  pub In-candidates :
      (t : Tuple) (ts : List Tuple) (grantee : Bytes)
      → In t ts
      → t.grantee ≡ grantee
      → In t (candidates p ts grantee)
  unfolding candidates
  In-candidates t [] grantee i holder = absurd i
  In-candidates t (u ∷ ts) grantee (inl same) holder = rw (holds u same) (inl same)
    where
      holds : (u : Tuple) → t ≡ u → list_eq (p.to_hex u.grantee) (p.to_hex grantee) ≡ true
      holds u s = ground (arith, list_eq_iff (p.to_hex u.grantee) (p.to_hex grantee))
  In-candidates t (u ∷ ts) grantee (inr i) holder = later (In-candidates t ts grantee i holder)
    where
      later : In t (candidates p ts grantee) → In t (candidates p (u ∷ ts) grantee)
      later j = elim (Bool-cases (list_eq (p.to_hex u.grantee) (p.to_hex grantee))) [
        | inl same ↦ rw (same, candidates) (inr j)
        | inr other ↦ rw (other, candidates) j
      ]

  abbrev pub Deeper : Type 0
  Deeper = List Hypothesis → Bytes → List Text → Work → Resolution × Work

  resolve_at-eq :
      (hops : ℕ)
      → (too_deep : Bool) × (deeper : Deeper) × (resolve_at p e hops
          ≡ resolve_with p e too_deep deeper)
  unfolding resolve_at
  resolve_at-eq zero = (true, (λ hs grantee visited w. (none', w)), refl)
  resolve_at-eq (suc hops) = (false, resolve_at p e hops, refl)

  -- What the candidates of the grantee add up to at the top of an evaluation.
  abbrev pub top : Bool → Deeper → Bytes → List Hypothesis → Found
  top too_deep deeper grantee hs =
      consider_all (authority_with p e too_deep deeper hs [])
        (candidates p (active_tuples e.state) grantee) hs
        (record {
          deny_valid = false;
          allow_valid = false;
          work = record { memo = []; counter = 1 };
        })

  pub evaluate_top :
      (grantee : Bytes) (hs : List Hypothesis)
      → (too_deep : Bool) × (deeper : Deeper) × (evaluate_hashes p e grantee hs ≡ (
          if ltb e.max_visited 1
          then false
          else is_allow (verdict (top too_deep deeper grantee hs))))
  unfolding evaluate_hashes resolve_with begin
  evaluate_top grantee hs =
      let (too_deep, deeper, same) = resolve_at-eq e.max_depth in
      (too_deep, deeper, rw same (ground arith))

  -- An active tuple of the grantee that denies the relation of one of the hypotheses, covers its
  -- objects and was issued by a root anchor makes the answer no, whatever else is granted and
  -- whatever the bounds on depth and work.
  pub root_denial_wins :
      (grantee : Bytes) (hs : List Hypothesis) (h : Hypothesis) (t : Tuple)
      → In h hs
      → Matches e grantee h.deny_relation_hash h.object_hashes t
      → is_root_anchor p e.config t.issuer ≡ true
      → evaluate_hashes p e grantee hs ≡ false
  root_denial_wins grantee hs h t listed m anchor =
      let (too_deep, deeper, same) = evaluate_top grantee hs in
      let denied : (top too_deep deeper grantee hs).deny_valid ≡ true =
        Denies-consider_all (authority_with p e too_deep deeper hs []) t
          (candidates p (active_tuples e.state) grantee) h hs _
          (In-candidates t (active_tuples e.state) grantee m.active m.holder) listed
          ((bytes_equal_iff _ _).1 m.names, (covers_iff _ _ _).1 m.covering)
          (root-Trusts too_deep deeper hs [] t.issuer anchor) in
      same ∙ ground (arith, denied)
