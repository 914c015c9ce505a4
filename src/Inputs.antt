-- ===== src/Inputs.antt =====
-- What cli/dacar.js makes of the values that it is given: hexadecimal text, keys, salts, identities,
-- payloads and files of copied hashes. What reading a file comes to is an argument. Case is only
-- mapped for ASCII: no other letter becomes one that these functions look for.
pub mod Payloads
use dacar.Common.{
  ℕ, zero, suc, ◌+◌, ◌%◌, Bool, true, false, not, ◌&&◌, ◌||◌, ltb, leb, ◌==◌, if◌then◌else◌,
  list_eq, List, [], ◌∷◌, ◌++◌, map, take, drop, replicate, Option, none, some, Bytes, Text, codes,
  length, Result, ok, err, error, require, ◌>>=◌, ◌>>◌,
}
use dacar.Value.BigInt.{trim}
use dacar.Namespace.{hash_size, salt_size}
use dacar.Records
use dacar.Alias.{AliasEntry, resolve}

-- `hexToBytes`, which is the same code as the store's `_hexToBytes`.
unfoldable pub hex_to_bytes : Text → Result Bytes
hex_to_bytes hex = Records.hex_to_bytes hex

abbrev pub lower : ℕ → ℕ
lower c = if leb b'A' c && leb c b'Z' then c + 32 else c

-- `text.startsWith(prefix)`
unfoldable pub starts_with : Text → Text → Bool
starts_with t [] = true
starts_with [] (c ∷ s) = false
starts_with (d ∷ t) (c ∷ s) = d == c && starts_with t s

-- A result, or another where it is an error.
abbrev pub or_else {ℓ} : {A : Type ℓ} → Result A → Result A → Result A
or_else (ok a) other = ok a
or_else (err e) other = other

sized_salt : Bytes → Result Bytes
sized_salt data' = do require (length data' == salt_size) error; ok data'

-- `saltFromValue`: 64 digits, with or without a prefix, or else the content of the file.
unfoldable pub salt_from_value : Text → (Text → Result Bytes) → Result Bytes
unfolding starts_with hex_to_bytes sized_salt
salt_from_value value read_file =
    let digits = if starts_with (map lower value) (codes "0x") then drop 2 value else value in
    let from_file = read_file value >>= sized_salt in
    if length digits == salt_size + salt_size
    then or_else (hex_to_bytes digits >>= sized_salt) from_file
    else from_file

without_prefix : Text → Text
unfolding starts_with
without_prefix t = if starts_with t (codes "0x") then drop 2 t else t

-- `resolveIdentityHash`: an alias, or 32 digits.
unfoldable pub resolve_identity_hash : Text → List AliasEntry → Result Bytes
unfolding without_prefix hex_to_bytes
resolve_identity_hash value aliases = elim (resolve aliases value) [
  | some hash ↦ ok hash
  | none ↦ do
    raw ← or_else (hex_to_bytes (without_prefix (map lower (trim value)))) (err error)
    require (length raw == hash_size) error
    ok raw
]

unfoldable pub as_rns_pub_key : Bytes → Result Bytes
as_rns_pub_key pub_key =
    if length pub_key == 32
    then ok (replicate 32 0 ++ pub_key)
    else if length pub_key == 64
    then ok pub_key
    else err error

unfoldable pub is_hex_digit : ℕ → Bool
is_hex_digit c =
    (leb b'0' c && leb c b'9') || (leb b'a' c && leb c b'f') || (leb b'A' c && leb c b'F')

all_hex : Text → Bool
unfolding is_hex_digit
all_hex [] = true
all_hex (c ∷ t) = is_hex_digit c && all_hex t

-- `bytes.toString("ascii")` clears the highest bit of each byte.
abbrev pub ascii : Bytes → Text
ascii bytes = map (λ b. b % 128) bytes

abbrev pub value_or {ℓ} : {A : Type ℓ} → A → Result A → A
value_or a (ok b) = b
value_or a (err e) = a

is_even : ℕ → Bool
is_even n = n % 2 == 0

-- `coercePayload`: the text of a payload becomes its bytes. The digits were tested, so that reading
-- them does not throw.
unfoldable pub coerce_payload : Bytes → Bool → Bytes
unfolding hex_to_bytes is_even all_hex
coerce_payload bytes force_binary =
    if force_binary || length bytes == 0
    then bytes
    else (let trimmed = trim (ascii bytes) in
        if length trimmed == 0 || not (is_even (length trimmed))
        then bytes
        else if all_hex trimmed
        then value_or bytes (hex_to_bytes trimmed)
        else bytes)

-- `tupleHashBytes`: what is no hash of 32 bytes becomes the empty byte string.
unfoldable pub tuple_hash_bytes : Text → Bytes
unfolding hex_to_bytes
tuple_hash_bytes hex =
    let raw = value_or [] (hex_to_bytes hex) in if length raw == 32 then raw else []

-- One more code unit at the front of the first of the pieces.
on_first : ℕ → List Text → List Text
on_first c [] = (c ∷ []) ∷ []
on_first c (s ∷ ss) = (c ∷ s) ∷ ss

unfoldable pub split_at : ℕ → Text → List Text
unfolding on_first
split_at d [] = [] ∷ []
split_at d (c ∷ t) = let rest = split_at d t in if c == d then [] ∷ rest else on_first c rest

-- `indexOf`, as the pieces before and behind the first `d`, if there is one.
unfoldable pub cut_at : ℕ → Text → Option (Text × Text)
cut_at d [] = none
cut_at d (c ∷ t) =
    let rest = cut_at d t in
    if c == d then some ([], t) else (elim rest [ none ↦ none | some r ↦ some (c ∷ r.0, r.1) ])

pub record CopyHashes : Type 0 where
  pub relation_hash : Option Bytes
  pub object_hashes : List Bytes
  pub is_wildcard : Bool

-- The parts of a list of hashes, without the empty ones.
copied_hashes : List Text → Result (List Bytes)
unfolding hex_to_bytes
copied_hashes [] = ok []
copied_hashes ([] ∷ parts) = copied_hashes parts
copied_hashes ((c ∷ part) ∷ parts) = do
  h ← or_else (hex_to_bytes (c ∷ part)) (err error)
  hs ← copied_hashes parts
  ok (h ∷ hs)

is_yes : Text → Bool
is_yes t = list_eq t (codes "true") || list_eq t (codes "1") || list_eq t (codes "yes")

copy_field : CopyHashes → Text → Text → Result CopyHashes
unfolding copied_hashes is_yes hex_to_bytes split_at
copy_field c key val =
    if list_eq key (codes "relation_hash")
    then (do h ← or_else (hex_to_bytes val) (err error); ok (record c { relation_hash = some h }))
    else if list_eq key (codes "object_hashes")
    then (do
      hs ← copied_hashes (split_at b':' val)
      ok (record c { object_hashes = c.object_hashes ++ hs }))
    else if list_eq key (codes "wildcard")
    then ok (record c { is_wildcard = is_yes (map lower val) })
    else ok c

-- One line: an empty one, a comment and one without `=` are skipped.
copy_line : CopyHashes → Text → Result CopyHashes
unfolding copy_field cut_at starts_with
copy_line c line =
    if length line == 0 || starts_with line (codes "#")
    then ok c
    else (elim (cut_at b'=' line) [ none ↦ ok c | some r ↦ copy_field c (trim r.0) (trim r.1) ])

copy_lines : CopyHashes → List Text → Result CopyHashes
unfolding copy_line
copy_lines c [] = ok c
copy_lines c (line ∷ lines) = do c' ← copy_line c (trim line); copy_lines c' lines

sized_relation : CopyHashes → Result CopyHashes
sized_relation c = elim c.relation_hash [
  | none ↦ err error
  | some h ↦ (do require (length h == hash_size) error; ok c)
]

-- `parseCopyHashes`, with the text of the file. A `\r` at the end of a line is trimmed.
unfoldable pub parse_copy_hashes : Text → Result CopyHashes
unfolding copy_lines sized_relation split_at
parse_copy_hashes text = do
  c ←
      copy_lines (record { relation_hash = none; object_hashes = []; is_wildcard = false })
        (split_at b'\n' text)
  sized_relation c
