-- ===== src/Queries/Matching.antt =====
-- What `check` of cli/dacar.js lists beside its answer.
use dacar.Common.{
  ◌≡◌, inl, inr, refl, sym, ap, subst, ◌∙◌, true, Bool-cases, List, [], ◌∷◌, map, Option, none,
  some, Bytes, Text, All, All-In, In, In-append, In-map, arith, ok, >>=-eq-ok,
}
use dacar.Platform.{Platform, IsHex}
use dacar.Namespace.{NamespaceHasher, hash_relation, hash_object, covers, bytes_equal}
use dacar.Namespace.Bits.{bytes_equal_iff}
use dacar.Namespace.Covering.{Covers, covers_iff}
use dacar.Tuple.{Tuple}
use dacar.Crdt.{StateVector, active_tuples}
use dacar.Config.{Config, hashers}
use dacar.Engine.{evaluate, evaluate_hashes, hypothesis, denied}
use dacar.Engine.Chains.{Authority, Granted}
use dacar.Engine.Soundness.{evaluate_hashes_sound}
use dacar.Challenge.Exchange.{new_engine}
use dacar.Alias.{AliasEntry}
use dacar.Inputs.{resolve_identity_hash}
use dacar.Queries.{
  Kind, Match, match_kind, matches_with, matches_under, find_matching_tuples, check,
}
use dacar.Queries.Listed.{Fits, matches_under-Fits}

ok-injective : {A : Type 0} {a b : A} → ok a ≡ ok b → a ≡ b
ok-injective e = cc

module _ (p : Platform) where
  -- A tuple that the loop finds is listed.
  matches_with-In :
      (h : NamespaceHasher) (relation object_id : Text) (grantee : Bytes) (ts : List Tuple)
      (t : Tuple) (kind : Kind)
      → In t ts
      → match_kind p h relation object_id grantee t ≡ some kind
      → In
          (record { kind = kind; tuple = t; hasher = h })
          (matches_with p h relation object_id grantee ts)
  unfolding matches_with
  matches_with-In h relation object_id grantee [] t kind i found = absurd i
  matches_with-In h relation object_id grantee (u ∷ ts) t kind (inl same) found =
      rw (ap (match_kind p h relation object_id grantee) (sym same) ∙ found, matches_with)
        (inl (ap (λ v. record { kind = kind; tuple = v; hasher = h }) same))
  matches_with-In h relation object_id grantee (u ∷ ts) t kind (inr j) found =
      go (match_kind p h relation object_id grantee u) refl
        (matches_with-In h relation object_id grantee ts t kind j found)
    where
      go :
          (r : Option Kind)
          → match_kind p h relation object_id grantee u ≡ r
          → In
              (record { kind = kind; tuple = t; hasher = h })
              (matches_with p h relation object_id grantee ts)
          → In
              (record { kind = kind; tuple = t; hasher = h })
              (matches_with p h relation object_id grantee (u ∷ ts))
      go none e later = rw (e, matches_with) later
      go (some k) e later = rw (e, matches_with) (inr later)

  matches_under-In :
      (hs : List NamespaceHasher) (s : StateVector) (relation object_id : Text) (grantee : Bytes)
      (h : NamespaceHasher) (m : Match)
      → In h hs
      → In m (matches_with p h relation object_id grantee (active_tuples s))
      → In m (matches_under p hs s relation object_id grantee)
  unfolding matches_under
  matches_under-In [] s relation object_id grantee h m i found = absurd i
  matches_under-In (g ∷ hs) s relation object_id grantee h m (inl same) found =
      (In-append m _ _).1 (
        inl (
          subst (λ k. In m (matches_with p k relation object_id grantee (active_tuples s))) same
            found))
  matches_under-In (g ∷ hs) s relation object_id grantee h m (inr j) found =
      (In-append m _ _).1 (inr (matches_under-In hs s relation object_id grantee h m j found))

  -- A tuple of the grantee that covers the objects and names the relation matches in some way.
  match_kind-some :
      (h : NamespaceHasher) (relation object_id : Text) (grantee : Bytes) (t : Tuple)
      → bytes_equal t.grantee grantee ≡ true
      → bytes_equal t.relation_hash (hash_relation p h relation) ≡ true
      → covers t.object_hashes t.is_wildcard (hash_object p h object_id).hashes ≡ true
      → (kind : Kind) × (match_kind p h relation object_id grantee t ≡ some kind)
  unfolding match_kind
  match_kind-some h relation object_id grantee t holder names covering =
      elim (Bool-cases (bytes_equal t.relation_hash (hash_relation p h (denied relation)))) [
        | inl both ↦ (Kind.deny, ground arith)
        | inr other ↦ (Kind.allow, ground arith)
      ]

  listed-Granted :
      (config : Config) (s : StateVector) (object_id relation : Text) (g : Bytes)
      (hs : List NamespaceHasher)
      → Granted p
          (new_engine config s)
          (map (hypothesis p (new_engine config s) object_id relation) hs)
          (map (hypothesis p (new_engine config s) object_id relation) hs)
          g
      → (m : Match) × In m (matches_under p hs s relation object_id g)
        × (m.tuple.relation_hash ≡ hash_relation p m.hasher relation)
        × Authority p
            (new_engine config s)
            (map (hypothesis p (new_engine config s) object_id relation) hs)
            m.tuple.issuer
  unfolding hypothesis
  listed-Granted config s object_id relation g hs granted =
      let engine = new_engine config s in
      let (h, i, by) =
        In-map (hypothesis p engine object_id relation) granted.by hs granted.listed in
      let t = granted.tuple in
      let names = granted.fits.names ∙ ap (λ y. y.allow_relation_hash) by in
      let covering =
        subst (λ y. Covers t.object_hashes t.is_wildcard y.object_hashes) by
          granted.fits.covering in
      let (kind, found) =
        match_kind-some h relation object_id g t
          ((bytes_equal_iff t.grantee g).1 granted.fits.holder)
          ((bytes_equal_iff t.relation_hash (hash_relation p h relation)).1 names)
          ((covers_iff t.object_hashes (hash_object p h object_id).hashes t.is_wildcard).1
            covering) in
      (
        record { kind = kind; tuple = t; hasher = h },
        matches_under-In hs s relation object_id g h _ i (
            matches_with-In h relation object_id g (active_tuples s) t kind granted.fits.active
              found),
        names,
        granted.trusted,
      )

  -- Where `check` answers yes, everything that it lists is an active tuple of the grantee that allows
  -- or denies the relation, as the list says, and covers the object under one of the salts; and one
  -- of them names the relation itself and has an issuer with authority over the object.
  pub check_lists :
      (hex : IsHex p) (config : Config) (s : StateVector) (aliases : List AliasEntry)
      (object_id relation value : Text) (grantee : Bytes) (matches : List Match)
      → resolve_identity_hash value aliases ≡ ok grantee
      → check p config s aliases object_id relation value ≡ ok (true, matches)
      → (hs : List NamespaceHasher) × (hashers config ≡ ok hs)
        × All (Fits p s hs relation object_id grantee) matches
        × (m : Match) × In m matches
        × (m.tuple.relation_hash ≡ hash_relation p m.hasher relation)
        × Authority p
            (new_engine config s)
            (map (hypothesis p (new_engine config s) object_id relation) hs)
            m.tuple.issuer
  unfolding check find_matching_tuples evaluate
  check_lists hex config s aliases object_id relation value grantee matches resolved e =
      let engine = new_engine config s in
      let (g, found, e1) = >>=-eq-ok (resolve_identity_hash value aliases) _ e in
      let (allowed, evaluated, e2) = >>=-eq-ok (evaluate p engine object_id relation g) _ e1 in
      let (ms, listed, e3) =
        >>=-eq-ok (find_matching_tuples p config s relation object_id g) _ e2 in
      let (hs, hashed, answered) = >>=-eq-ok (hashers config) _ evaluated in
      let (hs', hashed', made) = >>=-eq-ok (hashers config) _ listed in
      let pair = ok-injective e3 in
      let yes' : evaluate_hashes p engine g (map (hypothesis p engine object_id relation) hs)
          ≡ true =
        ok-injective answered ∙ ap (λ q. q.0) pair in
      let granted = evaluate_hashes_sound p hex engine _ g yes' in
      let same_hs : hs ≡ hs' = ok-injective (sym hashed ∙ hashed') in
      let whole : matches_under p hs s relation object_id g ≡ matches =
        ap (λ l. matches_under p l s relation object_id g) same_hs
        ∙ ok-injective made
        ∙ ap (λ q. q.1) pair in
      let (m, i, names, trusted) = listed-Granted config s object_id relation g hs granted in
      let same_grantee : g ≡ grantee = ok-injective (sym found ∙ resolved) in
      (
        hs,
        hashed,
        All-In matches λ n j.
            subst (λ x. Fits p s hs relation object_id x n) same_grantee
              (matches_under-Fits p s hs hs relation object_id g n (λ h k. k)
                (subst (In n) (sym whole) j)),
        m,
        subst (In m) whole i,
        names,
        trusted,
      )
