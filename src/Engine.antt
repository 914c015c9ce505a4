-- ===== src/Engine.antt =====
-- engine.js: whether a grantee holds a relation over an object, by the active tuples of the state
-- and the delegations that lead from a root trust anchor.
pub mod Chains
pub mod Considered
pub mod Soundness
pub mod Verdicts
pub mod Grants
use dacar.Common.{
  ℕ, zero, suc, ◌+◌, ◌++◌, Bool, true, false, ◌&&◌, ◌||◌, ltb, leb, ◌==◌, if◌then◌else◌, List, [],
  ◌∷◌, map, Bytes, Text, codes, list_eq, Result, ok, ◌>>=◌, Option, none, some,
}
use dacar.Platform.{Platform}
use dacar.Namespace.{NamespaceHasher, hash_relation, hash_object, covers, bytes_equal}
use dacar.Tuple.{Tuple}
use dacar.Crdt.{StateVector, active_tuples}
use dacar.Config.{Config, is_root_anchor, hashers, set_has}

abbrev pub default_max_depth : ℕ
default_max_depth = 10

abbrev pub default_max_visited : ℕ
default_max_visited = 50

abbrev pub admin_relation : Text
admin_relation = codes "admin"

-- `"-" + relation`
abbrev pub denied : Text → Text
denied relation = b'-' ∷ relation

pub record Hypothesis : Type 0 where
  pub hasher : NamespaceHasher
  pub object_hashes : List Bytes
  pub allow_relation_hash : Bytes
  pub deny_relation_hash : Bytes
  pub admin_allow_hash : Bytes
  pub admin_deny_hash : Bytes

pub record Engine : Type 0 where
  pub config : Config
  pub state : StateVector
  pub max_depth : ℕ
  pub max_visited : ℕ

pub data Resolution : Type 0 where
  deny allow none' : Resolution

-- What one evaluation keeps as it runs: the keys of the issuers found to have authority, and the
-- number of resolutions begun.
pub record Work : Type 0 where
  pub memo : List Text
  pub counter : ℕ

abbrev pub is_allow : Resolution → Bool
is_allow deny = false
is_allow allow = true
is_allow none' = false

-- The request for the reserved relation over the same objects.
unfoldable pub admin_hypothesis : Hypothesis → Hypothesis
admin_hypothesis h = record h {
  allow_relation_hash = h.admin_allow_hash;
  deny_relation_hash = h.admin_deny_hash;
}

unfoldable pub joined : ℕ → List Text → Text
joined c [] = []
joined c (s ∷ []) = s
joined c (s ∷ t ∷ ss) = s ++ c ∷ joined c (t ∷ ss)

pub record Found : Type 0 where
  pub deny_valid : Bool
  pub allow_valid : Bool
  pub work : Work

abbrev pub verdict : Found → Resolution
verdict f = if f.deny_valid then deny else if f.allow_valid then allow else none'

unfoldable pub begin : Work → Work
begin w = record w { counter = w.counter + 1 }

module _ (p : Platform) where
  unfoldable pub salted_objects : Hypothesis → Text
  salted_objects h = p.to_hex h.hasher.salt ++ b'|' ∷ joined b'.' (map p.to_hex h.object_hashes)

  unfoldable pub object_key : List Hypothesis → Text
  object_key hs = joined b';' (map salted_objects hs)

  -- The key under which the authority of an issuer is remembered.
  unfoldable pub memo_key : Bytes → List Hypothesis → Text
  memo_key issuer hs = p.to_hex issuer ++ b'|' ∷ object_key hs

  -- `index.get(toHex(granteeId)) ?? []`
  unfoldable pub candidates : List Tuple → Bytes → List Tuple
  candidates [] grantee = []
  candidates (t ∷ ts) grantee =
      let rest = candidates ts grantee in
      if list_eq (p.to_hex t.grantee) (p.to_hex grantee) then t ∷ rest else rest

module _ (authority : Bytes → Work → Bool × Work) where
  -- One candidate against one hypothesis.
  unfoldable pub consider : Tuple → Hypothesis → Found → Found
  consider t h f =
      if bytes_equal t.relation_hash h.deny_relation_hash
      then (if covers t.object_hashes t.is_wildcard h.object_hashes
          then (let (valid, w) = authority t.issuer f.work in
              record { deny_valid = f.deny_valid || valid; allow_valid = f.allow_valid; work = w })
          else f)
      else if bytes_equal t.relation_hash h.allow_relation_hash
      then (if covers t.object_hashes t.is_wildcard h.object_hashes
          then (let (valid, w) = authority t.issuer f.work in
              record { deny_valid = f.deny_valid; allow_valid = f.allow_valid || valid; work = w })
          else f)
      else f

  unfoldable pub consider_hypotheses : Tuple → List Hypothesis → Found → Found
  consider_hypotheses t [] f = f
  consider_hypotheses t (h ∷ hs) f = consider_hypotheses t hs (consider t h f)

  unfoldable pub consider_all : List Tuple → List Hypothesis → Found → Found
  consider_all [] hs f = f
  consider_all (t ∷ ts) hs f = consider_all ts hs (consider_hypotheses t hs f)

module _ (p : Platform) (e : Engine) where
  unfoldable pub remember : Text → Resolution × Work → Bool × Work
  remember k (r, w) = if is_allow r then (true, record w { memo = k ∷ w.memo }) else (false, w)

  -- The tests of `authority` before it resolves the admin request: its answer, if they give one.
  unfoldable pub known : Bytes → List Hypothesis → List Text → Bool → Work → Option Bool
  known issuer hs visited too_deep w =
      if is_root_anchor p e.config issuer
      then some true
      else if set_has w.memo (memo_key p issuer hs)
      then some true
      else if too_deep
      then some false
      else if set_has visited (p.to_hex issuer)
      then some false
      else none

  -- `authority`, from the resolution one hop further.
  unfoldable pub authority_with :
      Bool
      → (List Hypothesis → Bytes → List Text → Work → Resolution × Work)
      → List Hypothesis
      → List Text
      → Bytes
      → Work
      → Bool × Work
  authority_with too_deep deeper hs visited issuer w = elim (known issuer hs visited too_deep w) [
    | some b ↦ (b, w)
    | none ↦
        remember (memo_key p issuer hs)
          (deeper (map admin_hypothesis hs) issuer (p.to_hex issuer ∷ visited) w)
  ]

  -- `_resolve`, from the resolution one hop further.
  unfoldable pub resolve_with :
      Bool
      → (List Hypothesis → Bytes → List Text → Work → Resolution × Work)
      → List Hypothesis
      → Bytes
      → List Text
      → Work
      → Resolution × Work
  resolve_with too_deep deeper hs grantee visited w0 =
      let w = begin w0 in
      if ltb e.max_visited w.counter
      then (none', w)
      else (let f =
            consider_all (authority_with too_deep deeper hs visited)
              (candidates p (active_tuples e.state) grantee) hs
              (record { deny_valid = false; allow_valid = false; work = w }) in
          (verdict f, f.work))

  -- The hops left are `maxDepth - depth`: at none the depth bound is met.
  unfoldable pub resolve_at : ℕ → List Hypothesis → Bytes → List Text → Work → Resolution × Work
  resolve_at zero = resolve_with true (λ hs grantee visited w. (none', w))
  resolve_at (suc hops) = resolve_with false (resolve_at hops)

  unfoldable pub evaluate_hashes : Bytes → List Hypothesis → Bool
  evaluate_hashes grantee hs =
      is_allow (resolve_at e.max_depth hs grantee [] (record { memo = []; counter = 0 })).0

  -- The hashes of a request and of the reserved relation under one salt.
  unfoldable pub hypothesis : Text → Text → NamespaceHasher → Hypothesis
  hypothesis object_id relation hasher = record {
    hasher = hasher;
    object_hashes = (hash_object p hasher object_id).hashes;
    allow_relation_hash = hash_relation p hasher relation;
    deny_relation_hash = hash_relation p hasher (denied relation);
    admin_allow_hash = hash_relation p hasher admin_relation;
    admin_deny_hash = hash_relation p hasher (denied admin_relation);
  }

  unfoldable pub evaluate : Text → Text → Bytes → Result Bool
  evaluate object_id relation grantee = do
    hs ← hashers e.config
    ok (evaluate_hashes grantee (map (hypothesis object_id relation) hs))
