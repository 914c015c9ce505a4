-- ===== src/Queries/Listed.antt =====
-- What the loops of findMatchingTuples of cli/dacar.js list.
use dacar.Common.{
  ◌≡◌, inl, inr, refl, sym, subst, List, [], ◌∷◌, Option, none, some, Bytes, Text, In, In-append,
  arith,
}
use dacar.Platform.{Platform}
use dacar.Namespace.{NamespaceHasher, hash_relation, hash_object}
use dacar.Namespace.Bits.{bytes_equal_iff}
use dacar.Namespace.Covering.{Covers, covers_iff}
use dacar.Tuple.{Tuple}
use dacar.Crdt.{StateVector, active_tuples}
use dacar.Engine.{denied}
use dacar.Queries.{Kind, Match, match_kind, matches_with, matches_under}

-- The relation that a tuple of this kind names for a relation that is asked for.
abbrev pub named_by : Kind → Text → Text
named_by Kind.deny relation = denied relation
named_by Kind.allow relation = relation

module _ (p : Platform) where
  -- What is listed under a hasher for a request: an active tuple of the grantee that allows or denies
  -- the relation, as the list says, and covers the object.
  pub record Fits (s : StateVector) (hs : List NamespaceHasher) (relation object_id : Text)
      (grantee : Bytes) (m : Match) : Type 0 where
    pub active : In m.tuple (active_tuples s)
    pub under : In m.hasher hs
    pub holder : m.tuple.grantee ≡ grantee
    pub names : m.tuple.relation_hash ≡ hash_relation p m.hasher (named_by m.kind relation)
    pub covering :
        Covers m.tuple.object_hashes m.tuple.is_wildcard (hash_object p m.hasher object_id).hashes

  match_kind-Fits :
      (s : StateVector) (h : NamespaceHasher) (hs : List NamespaceHasher)
      (relation object_id : Text) (grantee : Bytes) (t : Tuple) (kind : Kind)
      → In t (active_tuples s)
      → In h hs
      → match_kind p h relation object_id grantee t ≡ some kind
      → Fits s hs relation object_id grantee (record { kind = kind; tuple = t; hasher = h })
  unfolding match_kind
  match_kind-Fits s h hs relation object_id grantee t Kind.deny active under e = record {
    active = active;
    under = under;
    holder = (bytes_equal_iff t.grantee grantee).0 (ground arith);
    names =
        (bytes_equal_iff t.relation_hash (hash_relation p h (denied relation))).0 (ground arith);
    covering =
        (covers_iff t.object_hashes (hash_object p h object_id).hashes t.is_wildcard).0
          (ground arith);
  }
  match_kind-Fits s h hs relation object_id grantee t Kind.allow active under e = record {
    active = active;
    under = under;
    holder = (bytes_equal_iff t.grantee grantee).0 (ground arith);
    names = (bytes_equal_iff t.relation_hash (hash_relation p h relation)).0 (ground arith);
    covering =
        (covers_iff t.object_hashes (hash_object p h object_id).hashes t.is_wildcard).0
          (ground arith);
  }

  matches_with-Fits :
      (s : StateVector) (h : NamespaceHasher) (hs : List NamespaceHasher)
      (relation object_id : Text) (grantee : Bytes) (ts : List Tuple) (m : Match)
      → ((t : Tuple) → In t ts → In t (active_tuples s))
      → In h hs
      → In m (matches_with p h relation object_id grantee ts)
      → Fits s hs relation object_id grantee m
  unfolding matches_with
  matches_with-Fits s h hs relation object_id grantee [] m part under i = absurd i
  matches_with-Fits s h hs relation object_id grantee (t ∷ ts) m part under i =
      go (match_kind p h relation object_id grantee t) refl
        (matches_with-Fits s h hs relation object_id grantee ts m (λ u j. part u (inr j)) under)
    where
      go :
          (r : Option Kind)
          → match_kind p h relation object_id grantee t ≡ r
          → (In m (matches_with p h relation object_id grantee ts)
              → Fits s hs relation object_id grantee m)
          → Fits s hs relation object_id grantee m
      go none e later = later (rw (e, matches_with) at i)
      go (some kind) e later = elim (rw (e, matches_with) at i) [
        | inl here ↦
            subst (Fits s hs relation object_id grantee) (sym here)
              (match_kind-Fits s h hs relation object_id grantee t kind (part t (inl refl)) under e)
        | inr j ↦ later j
      ]

  pub matches_under-Fits :
      (s : StateVector) (hs rest : List NamespaceHasher) (relation object_id : Text)
      (grantee : Bytes) (m : Match)
      → ((h : NamespaceHasher) → In h rest → In h hs)
      → In m (matches_under p rest s relation object_id grantee)
      → Fits s hs relation object_id grantee m
  unfolding matches_under
  matches_under-Fits s hs [] relation object_id grantee m part i = absurd i
  matches_under-Fits s hs (h ∷ rest) relation object_id grantee m part i =
      elim ((In-append m _ _).0 i) [
        | inl j ↦
            matches_with-Fits s h hs relation object_id grantee (active_tuples s) m (λ t k. k)
              (part h (inl refl)) j
        | inr j ↦
            matches_under-Fits s hs rest relation object_id grantee m (λ g k. part g (inr k)) j
      ]
