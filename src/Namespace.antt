-- ===== src/Namespace.antt =====
-- namespace.js: the segments of an object, their salted hashes, and when a tuple's object covers
-- a request's.
pub mod Bits
pub mod Covering
pub mod Parsing
use Prim.Native.Nat.{bit_or, bit_xor}
use dacar.Common.{
  ℕ, zero, suc, ◌<◌, Bool, true, false, ◌&&◌, ltb, ◌==◌, if◌then◌else◌, List, [], ◌∷◌, map, Bytes,
  Text, codes, length, take, replicate, list_eq, Result, ok, err, range_error, require, ◌>>=◌, ◌>>◌,
}
use dacar.Platform.{Platform}

abbrev pub delimiter : ℕ
delimiter = b':'

abbrev pub wildcard : Text
wildcard = codes "*"

abbrev pub salt_size : ℕ
salt_size = 32

abbrev pub hash_size : ℕ
hash_size = 16

abbrev pub default_salt : Bytes
default_salt = replicate salt_size 0

abbrev pub max_legacy_salts : ℕ
max_legacy_salts = 2

abbrev pub salt_id_tag : Text
salt_id_tag = codes "dacar.salt.id"

-- One more code unit at the front of the first segment.
on_first : ℕ → List Text → List Text
on_first c [] = (c ∷ []) ∷ []
on_first c (s ∷ ss) = (c ∷ s) ∷ ss

-- `objectId.split(":")`: the empty string has one empty segment.
unfoldable pub split : Text → List Text
unfolding on_first
split [] = [] ∷ []
split (c ∷ t) = let rest = split t in if c == delimiter then [] ∷ rest else on_first c rest

pub record ParsedObject : Type 0 where
  pub segments : List Text
  pub is_wildcard : Bool

-- The segments without a last one that is `*`.
pop_wildcard : List Text → ParsedObject
pop_wildcard [] = record { segments = []; is_wildcard = false }
pop_wildcard (s ∷ []) =
    if list_eq s wildcard
    then record { segments = []; is_wildcard = true }
    else record { segments = s ∷ []; is_wildcard = false }
pop_wildcard (s ∷ t ∷ ss) =
    let rest = pop_wildcard (t ∷ ss) in
    record { segments = s ∷ rest.segments; is_wildcard = rest.is_wildcard }

unfoldable pub parse_object : Text → ParsedObject
unfolding split pop_wildcard
parse_object object_id =
    if list_eq object_id wildcard
    then record { segments = []; is_wildcard = true }
    else pop_wildcard (split object_id)

unfoldable pub truncate16 : Bytes → Bytes
truncate16 digest = take hash_size digest

pub record NamespaceHasher : Type 0 where
  pub salt : Bytes

unfoldable pub new_hasher : Bytes → Result NamespaceHasher
new_hasher salt = do require (length salt == salt_size) range_error; ok (record { salt = salt })

pub record HashedObject : Type 0 where
  pub hashes : List Bytes
  pub is_wildcard : Bool

module _ (p : Platform) where
  unfoldable pub hash_relation : NamespaceHasher → Text → Bytes
  unfolding truncate16
  hash_relation h relation = truncate16 (p.hmac_sha256 h.salt (p.utf8 relation))

  unfoldable pub hash_object : NamespaceHasher → Text → HashedObject
  unfolding parse_object truncate16
  hash_object h object_id =
      let parsed = parse_object object_id in
      record {
        hashes = map (λ seg. truncate16 (p.hmac_sha256 h.salt (p.utf8 seg))) parsed.segments;
        is_wildcard = parsed.is_wildcard;
      }

  unfoldable pub id_tag : NamespaceHasher → Bytes
  unfolding truncate16
  id_tag h = truncate16 (p.hmac_sha256 h.salt (p.utf8 salt_id_tag))

-- `for (…) diff |= a[i] ^ b[i]`, from the difference so far, over two arrays of one length.
pub differences : ℕ → Bytes → Bytes → ℕ
differences diff [] bs = diff
differences diff (a ∷ as') [] = diff
differences diff (a ∷ as') (b ∷ bs) = differences (bit_or diff (bit_xor a b)) as' bs

unfoldable pub bytes_equal : Bytes → Bytes → Bool
unfolding differences
bytes_equal a b = if length a == length b then differences 0 a b == 0 else false

-- The loop over the tuple's hashes; a request that runs out first has no bytes to compare.
starts_with : List Bytes → List Bytes → Bool
starts_with [] rs = true
starts_with (t ∷ ts) [] = false
starts_with (t ∷ ts) (r ∷ rs) = bytes_equal t r && starts_with ts rs

unfoldable pub covers : List Bytes → Bool → List Bytes → Bool
unfolding starts_with
covers tuple_hashes true request_hashes =
    if ltb (length request_hashes) (length tuple_hashes)
    then false
    else starts_with tuple_hashes request_hashes
covers tuple_hashes false request_hashes =
    if length tuple_hashes == length request_hashes
    then starts_with tuple_hashes request_hashes
    else false
