-- ===== src/Engine/Chains.antt =====
-- What the verdicts of engine.js stand for: chains of active tuples that start at a root trust
-- anchor.
use dacar.Common.{
  ◌++◌, ◌≡◌, refl, ap, true, List, [], ◌∷◌, map, Bytes, Text, In, append-injective, length,
  length-append, arith,
}
use dacar.Platform.{Platform, IsHex}
use dacar.Namespace.Covering.{Covers}
use dacar.Tuple.{Tuple}
use dacar.Crdt.{active_tuples}
use dacar.Config.{is_root_anchor}
use dacar.Engine.{
  Engine, Hypothesis, admin_hypothesis, memo_key, object_key, joined, salted_objects,
}

-- An active tuple for the grantee, with this relation, that covers the objects.
pub record Matches (e : Engine) (grantee relation : Bytes) (objects : List Bytes) (t : Tuple)
    : Type 0 where
  pub active : In t (active_tuples e.state)
  pub holder : t.grantee ≡ grantee
  pub names : t.relation_hash ≡ relation
  pub covering : Covers t.object_hashes t.is_wildcard objects

module _ (p : Platform) (e : Engine) where
  -- The issuer is a root anchor, or holds the reserved relation over the objects from an issuer
  -- with authority, by a tuple that matches one of the hypotheses.
  pub data Authority (hs : List Hypothesis) : Bytes → Type 0 where
    root : (issuer : Bytes) → is_root_anchor p e.config issuer ≡ true → Authority hs issuer
    delegated :
        (issuer : Bytes) (h : Hypothesis) (t : Tuple)
        → In h hs
        → Matches e issuer h.admin_allow_hash h.object_hashes t
        → Authority hs t.issuer
        → Authority hs issuer

  -- The grantee is granted the relation of a hypothesis by an issuer with authority.
  pub record Granted (base hs : List Hypothesis) (grantee : Bytes) : Type 0 where
    pub by : Hypothesis
    pub listed : In by hs
    pub tuple : Tuple
    pub fits : Matches e grantee by.allow_relation_hash by.object_hashes tuple
    pub trusted : Authority base tuple.issuer

  -- The grantee is denied the relation of a hypothesis by an issuer with authority.
  pub record Denied (base hs : List Hypothesis) (grantee : Bytes) : Type 0 where
    pub by : Hypothesis
    pub listed : In by hs
    pub tuple : Tuple
    pub fits : Matches e grantee by.deny_relation_hash by.object_hashes tuple
    pub trusted : Authority base tuple.issuer

append_right-injective : (xs ys zs : Text) → xs ++ zs ≡ ys ++ zs → xs ≡ ys
append_right-injective xs ys zs h =
    (append-injective xs ys (omega (arith, ap length h, length-append xs zs, length-append ys zs))
      h).0

-- For one list of hypotheses the key of the memo tells issuers apart.
pub memo_key-injective :
    (p : Platform) (i j : Bytes) (hs : List Hypothesis)
    → IsHex p
    → memo_key p i hs ≡ memo_key p j hs
    → i ≡ j
unfolding memo_key
memo_key-injective p i j hs hex h = hex.to_hex-injective i j (append_right-injective _ _ _ h)

-- The reserved relation's hypotheses have the same key.
salted-admin :
    (p : Platform) (hs : List Hypothesis)
    → map (salted_objects p) (map admin_hypothesis hs) ≡ map (salted_objects p) hs
unfolding salted_objects admin_hypothesis
salted-admin p [] = refl
salted-admin p (h ∷ hs) = ap (λ r. salted_objects p h ∷ r) (salted-admin p hs)

pub memo_key-admin :
    (p : Platform) (issuer : Bytes) (hs : List Hypothesis)
    → memo_key p issuer (map admin_hypothesis hs) ≡ memo_key p issuer hs
unfolding memo_key object_key
memo_key-admin p issuer hs = ap (λ r. p.to_hex issuer ++ b'|' ∷ joined b';' r) (salted-admin p hs)
