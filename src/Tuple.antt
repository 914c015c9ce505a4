-- ===== src/Tuple.antt =====
-- tuple.js: the authorization tuple, its checks, its hash pre-image and the key of the state map.
pub mod Preimage
use dacar.Common.{
  ℕ, Bool, true, false, ◌&&◌, ◌++◌, ltb, leb, ◌==◌, if◌then◌else◌, List, [], ◌∷◌, Bytes, Text,
  length, Result, ok, err, range_error, require, ◌>>=◌, ◌>>◌,
}
use dacar.Platform.{Platform}
use dacar.Namespace.{hash_size, bytes_equal, NamespaceHasher, hash_relation, hash_object}

abbrev pub max_segments : ℕ
max_segments = 0xff

pub record Tuple : Type 0 where
  pub relation_hash : Bytes
  pub object_hashes : List Bytes
  pub is_wildcard : Bool
  pub grantee : Bytes
  pub issuer : Bytes

abbrev pub is_hash : Bytes → Bool
is_hash h = length h == hash_size

all_hashes : List Bytes → Bool
all_hashes [] = true
all_hashes (h ∷ hs) = is_hash h && all_hashes hs

-- The constructor.
unfoldable pub new_tuple : Tuple → Result Tuple
unfolding all_hashes
new_tuple init = do
  require (is_hash init.relation_hash) range_error
  require (is_hash init.grantee) range_error
  require (is_hash init.issuer) range_error
  require (leb (length init.object_hashes) max_segments) range_error
  require (all_hashes init.object_hashes) range_error
  ok init

-- `Tuple.fromPlaintext`.
unfoldable pub from_plaintext :
    (p : Platform) → Text → Text → Bytes → Bytes → NamespaceHasher → Result Tuple
unfolding new_tuple
from_plaintext p object_id relation grantee issuer hasher =
    let object = hash_object p hasher object_id in
    new_tuple (record {
      relation_hash = hash_relation p hasher relation;
      object_hashes = object.hashes;
      is_wildcard = object.is_wildcard;
      grantee = grantee;
      issuer = issuer;
    })

abbrev pub flag : Bool → ℕ
flag true = 0x01
flag false = 0x00

unfoldable pub concat : List Bytes → Bytes
concat [] = []
concat (h ∷ hs) = h ++ concat hs

unfoldable pub preimage : Tuple → Bytes
unfolding concat
preimage t =
    t.issuer
    ++ (t.grantee
        ++ (t.relation_hash
            ++ (flag t.is_wildcard ∷ length t.object_hashes ∷ concat t.object_hashes)))

unfoldable pub hash : (p : Platform) → Tuple → Bytes
unfolding preimage
hash p t = p.sha256 (preimage t)

unfoldable pub key : (p : Platform) → Tuple → Text
key p t = p.to_hex (preimage t)

same_flag : Bool → Bool → Bool
same_flag true b = b
same_flag false true = false
same_flag false false = true

-- `objectHashes.every(…)` over lists of one length.
same_hashes : List Bytes → List Bytes → Bool
same_hashes [] os = true
same_hashes (h ∷ hs) [] = false
same_hashes (h ∷ hs) (o ∷ os) = bytes_equal h o && same_hashes hs os

unfoldable pub equals : Tuple → Tuple → Bool
unfolding same_flag same_hashes
equals t other =
    bytes_equal t.relation_hash other.relation_hash
    && length t.object_hashes == length other.object_hashes
    && same_hashes t.object_hashes other.object_hashes
    && same_flag t.is_wildcard other.is_wildcard
    && bytes_equal t.grantee other.grantee
    && bytes_equal t.issuer other.issuer
