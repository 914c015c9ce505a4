-- ===== src/Issue/Tuples.antt =====
-- The tuples that `buildTuple` of cli/dacar.js makes.
use dacar.Common.{
  ◌≡◌, refl, sym, ap, subst, ◌∙◌, List, Option, none, some, Bytes, Text, Result, ok, Ensures,
  Ensures-bind, ◌>>=◌,
}
use dacar.Platform.{Platform}
use dacar.Value.{ℤ}
use dacar.Config.{Config}
use dacar.Alias.{AliasEntry}
use dacar.Inputs.{CopyHashes, parse_copy_hashes, resolve_identity_hash}
use dacar.Namespace.{NamespaceHasher, hash_relation, hash_object}
use dacar.Tuple.{Tuple, new_tuple, from_plaintext}
use dacar.Tuple.Preimage.{IsTuple, new_tuple_iff}
use dacar.Issue.{hasher_for, IssueArgs, Built, build_copied, build_plain, build_tuple}

module _ (p : Platform) where
  -- A well-formed tuple of the issuer.
  abbrev pub Ours : Bytes → Built → Type 0
  Ours issuer b = IsTuple b.tuple × (b.tuple.issuer ≡ issuer)

  tuple-Ours :
      (init : Tuple) (rest : Tuple → Built)
      → ((t : Tuple) → (rest t).tuple ≡ t)
      → Ensures (Ours init.issuer) (new_tuple init >>= λ t. ok (rest t))
  tuple-Ours init rest keeps = Ensures-bind (Ours init.issuer) (new_tuple init) _ λ t made'.
      let (same, v) = (new_tuple_iff init t).0 made' in
      (subst IsTuple (same ∙ sym (keeps t)) v, ap (λ u. u.issuer) (keeps t ∙ sym same))

  build_copied-Ours :
      (c : CopyHashes) (grantee issuer : Bytes)
      → Ensures (Ours issuer) (build_copied p c grantee issuer)
  unfolding build_copied
  build_copied-Ours c grantee issuer = go c.relation_hash refl
    where
      go :
          (o : Option Bytes)
          → c.relation_hash ≡ o
          → Ensures (Ours issuer) (build_copied p c grantee issuer)
      go none e = rw (e, build_copied) tt
      go (some r) e =
          rw (e, build_copied)
            (tuple-Ours
              (record {
                relation_hash = r;
                object_hashes = c.object_hashes;
                is_wildcard = c.is_wildcard;
                grantee = grantee;
                issuer = issuer;
              })
              _ (λ t. refl))

  from_plaintext-ours :
      (object_id relation : Text) (grantee issuer : Bytes) (hasher : NamespaceHasher) (t : Tuple)
      → from_plaintext p object_id relation grantee issuer hasher ≡ ok t
      → IsTuple t × (t.issuer ≡ issuer)
  unfolding from_plaintext
  from_plaintext-ours object_id relation grantee issuer hasher t made' =
      let object = hash_object p hasher object_id in
      let init : Tuple = record {
        relation_hash = hash_relation p hasher relation;
        object_hashes = object.hashes;
        is_wildcard = object.is_wildcard;
        grantee = grantee;
        issuer = issuer;
      } in
      let (same, v) = (new_tuple_iff init t).0 made' in
      (subst IsTuple same v, ap (λ u. u.issuer) (sym same))

  build_plain-Ours :
      (config : Config) (legacy : Option ℤ) (relation object_id : Option Text)
      (grantee issuer : Bytes)
      → Ensures (Ours issuer) (build_plain p config legacy relation object_id grantee issuer)
  unfolding build_plain from_plaintext
  build_plain-Ours config legacy none object_id grantee issuer = tt
  build_plain-Ours config legacy (some relation) none grantee issuer = tt
  build_plain-Ours config legacy (some relation) (some object_id) grantee issuer =
      Ensures-bind (Ours issuer) (hasher_for config legacy) _ λ hasher chosen.
        Ensures-bind (Ours issuer) (from_plaintext p object_id relation grantee issuer hasher) _
          λ t made'. from_plaintext-ours object_id relation grantee issuer hasher t made'

  pub build_tuple-Ours :
      (args : IssueArgs) (config : Config) (aliases : List AliasEntry) (issuer : Bytes)
      → Ensures (Ours issuer) (build_tuple p args config aliases issuer)
  unfolding build_tuple
  build_tuple-Ours args config aliases issuer =
      Ensures-bind (Ours issuer) (resolve_identity_hash args.grantee aliases) _
        λ grantee found. go grantee args.copy_hashes
    where
      go :
          (grantee : Bytes) (copied : Option (Result Text))
          → Ensures (Ours issuer) (elim copied [
            | none ↦ build_plain p config args.legacy args.relation args.object_id grantee issuer
            | some file ↦
                file >>= λ text. parse_copy_hashes text >>= λ c. build_copied p c grantee issuer
          ])
      go grantee none =
          build_plain-Ours config args.legacy args.relation args.object_id grantee issuer
      go grantee (some file) = Ensures-bind (Ours issuer) file _ λ text read.
          Ensures-bind (Ours issuer) (parse_copy_hashes text) _
            λ c parsed. build_copied-Ours c grantee issuer
