-- ===== src/Challenge.antt =====
-- challenge.js: the challenge of an authoritative identity, its wire format, and the two sides of
-- the exchange. Freshness receipts are in a module below.
pub mod Verdict
pub mod Exchange
pub mod Wire
pub mod Freshness
use dacar.Common.{
  ℕ, Bool, true, false, not, ◌&&◌, ltb, leb, ◌==◌, if◌then◌else◌, List, [], ◌∷◌, map, Option, none,
  some, Bytes, Text, codes, length, Result, ok, err, error, type_error, require, ◌>>=◌, ◌>>◌,
}
use dacar.JsMap.{JsMap}
use dacar.JsMap
use dacar.Platform.{Platform}
use dacar.Value.{
  Value, nil, bool, int, float, str, bin, arr, object, from_list, expect_array, expect_bytes,
  map_result,
}
use dacar.Namespace.{hash_size, bytes_equal, NamespaceHasher, hash_relation, hash_object, id_tag}
use dacar.Config.{Config, hashers}
use dacar.Engine.{Hypothesis, denied, admin_relation}

abbrev pub nonce_size : ℕ
nonce_size = 32

pub record Challenge : Type 0 where
  pub object_id : Text
  pub relation : Text
  pub grantee : Bytes
  pub nonce : Bytes
  pub hashers : List NamespaceHasher

-- The constructor.
unfoldable pub new_challenge : Challenge → Result Challenge
new_challenge init = do
  require (length init.grantee == hash_size) type_error
  require (length init.nonce == nonce_size) type_error
  require (not (length init.hashers == 0)) type_error
  ok init

-- `Challenge.generate`, with the random nonce that is used where none is supplied.
unfoldable pub generate :
    Text → Text → Bytes → List NamespaceHasher → Option Bytes → Bytes → Result Challenge
unfolding new_challenge
generate object_id relation grantee hs nonce random = new_challenge (record {
  object_id = object_id;
  relation = relation;
  grantee = grantee;
  nonce = elim nonce [ none ↦ random | some n ↦ n ];
  hashers = hs;
})

pub record DecodedEntry : Type 0 where
  pub salt_id_tag : Bytes
  pub grantee_hash : Bytes
  pub allow_relation_hash : Bytes
  pub deny_relation_hash : Bytes
  pub object_hashes : List Bytes

pub record DecodedChallenge : Type 0 where
  pub nonce : Bytes
  pub grantee : Bytes
  pub entries : List DecodedEntry

-- All entries must be for the grantee of the first.
same_grantee : Option Bytes → Bytes → Result (Unit {0})
same_grantee none gh = ok tt
same_grantee (some g) gh = require (bytes_equal g gh) error

unfoldable pub read_entry : Option Bytes → List Value → Result DecodedEntry
unfolding same_grantee
read_entry grantee (tag ∷ who ∷ allow_rh ∷ deny_rh ∷ objects ∷ []) = do
  segments ← expect_array objects
  gh ← expect_bytes who hash_size
  same_grantee grantee gh
  tag_bytes ← expect_bytes tag hash_size
  allow_bytes ← expect_bytes allow_rh hash_size
  deny_bytes ← expect_bytes deny_rh hash_size
  object_bytes ← map_result (λ h. expect_bytes h hash_size) segments
  ok (record {
    salt_id_tag = tag_bytes;
    grantee_hash = gh;
    allow_relation_hash = allow_bytes;
    deny_relation_hash = deny_bytes;
    object_hashes = object_bytes;
  })
read_entry grantee _ = err error

-- The loop over the entries, with the grantee of the first.
unfoldable pub read_entries : Option Bytes → List Value → Result (List DecodedEntry)
unfolding read_entry
read_entries grantee [] = ok []
read_entries grantee (v ∷ vs) = do
  fields ← expect_array v
  entry ← read_entry grantee fields
  rest ← read_entries (some (elim grantee [ none ↦ entry.grantee_hash | some g ↦ g ])) vs
  ok (entry ∷ rest)

with_grantee : Bytes → List DecodedEntry → Result DecodedChallenge
with_grantee nonce [] = err error
with_grantee nonce (e ∷ es) =
    ok (record { nonce = nonce; grantee = e.grantee_hash; entries = e ∷ es })

read_challenge : List Value → Result DecodedChallenge
unfolding read_entries with_grantee
read_challenge (nonce ∷ entries ∷ []) = do
  nonce_bytes ← expect_bytes nonce nonce_size
  items ← expect_array entries
  decoded ← read_entries none items
  with_grantee nonce_bytes decoded
read_challenge _ = err error

unfoldable pub from_value : Value → Result DecodedChallenge
unfolding read_challenge
from_value v = do fields ← expect_array v; read_challenge fields

module _ (p : Platform) where
  entry_value : Challenge → NamespaceHasher → Value
  entry_value c h = arr (
      from_list (
        bin (id_tag p h)
        ∷ bin c.grantee
        ∷ bin (hash_relation p h c.relation)
        ∷ bin (hash_relation p h (denied c.relation))
        ∷ arr (from_list (map bin (hash_object p h c.object_id).hashes))
        ∷ []))

  unfoldable pub to_value : Challenge → Value
  unfolding entry_value
  to_value c = arr (from_list (bin c.nonce ∷ arr (from_list (map (entry_value c) c.hashers)) ∷ []))

  unfoldable pub to_payload : Challenge → Bytes
  to_payload c = p.encode (to_value c)

  unfoldable pub from_payload : Bytes → Result DecodedChallenge
  from_payload data' = do v ← p.decode data'; from_value v

  -- The configured hashers by their tags; a later hasher with the same tag replaces the earlier.
  by_tag : JsMap NamespaceHasher → List NamespaceHasher → JsMap NamespaceHasher
  by_tag m [] = m
  by_tag m (h ∷ hs) = by_tag (JsMap.set m (p.to_hex (id_tag p h)) h) hs

  bind_entry : DecodedEntry → NamespaceHasher → Hypothesis
  bind_entry e h = record {
    hasher = h;
    object_hashes = e.object_hashes;
    allow_relation_hash = e.allow_relation_hash;
    deny_relation_hash = e.deny_relation_hash;
    admin_allow_hash = hash_relation p h admin_relation;
    admin_deny_hash = hash_relation p h (denied admin_relation);
  }

  -- An entry whose tag is of no configured salt is skipped.
  bind_entries : JsMap NamespaceHasher → List DecodedEntry → List Hypothesis
  unfolding bind_entry
  bind_entries m [] = []
  bind_entries m (e ∷ es) =
      let rest = bind_entries m es in
      elim (JsMap.get m (p.to_hex e.salt_id_tag)) [ none ↦ rest | some h ↦ bind_entry e h ∷ rest ]

  unfoldable pub build_hypotheses : Config → DecodedChallenge → Result (List Hypothesis)
  unfolding by_tag bind_entries
  build_hypotheses config decoded = do
    hs ← hashers config
    ok (bind_entries (by_tag [] hs) decoded.entries)
