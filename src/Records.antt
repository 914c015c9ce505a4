-- ===== src/Records.antt =====
-- cli/store.js: the records of `DacarStore` for the outbox, the sent box and the known identities, by
-- the bytes that the storage adapter has for them, if any.
pub mod Boxes
pub mod Hex
use dacar.Common.{
  ℕ, Bool, true, false, ◌+◌, ◌-◌, ◌*◌, ◌%◌, ◌&&◌, ltb, leb, not, ◌==◌, if◌then◌else◌, List, [], ◌∷◌,
  ◌++◌, map, Option, none, some, Bytes, Text, length, take, drop, replicate, Result, ok, err, error,
  ◌>>=◌,
}
use dacar.JsMap.{JsMap}
use dacar.Platform.{Platform}
use dacar.Value.{
  Value, Fields, nil, bool, int, float, str, bin, arr, object, end, field, from_list, to_list,
}
use dacar.Keyset.{IssuerKeyset}
use dacar.Verifier.{Keyring, new_keyring, register_single}

abbrev pub ed25519_pub_size : ℕ
ed25519_pub_size = 32

-- `obj.filter((p) => p instanceof Uint8Array)`
unfoldable pub byte_strings : List Value → List Bytes
byte_strings [] = []
byte_strings (bin b ∷ vs) = b ∷ byte_strings vs
byte_strings (v ∷ vs) = byte_strings vs

hex_value : ℕ → Option ℕ
hex_value c =
    if leb b'0' c && leb c b'9'
    then some (c - b'0')
    else if leb b'a' c && leb c b'f'
    then some (c - b'a' + 10)
    else if leb b'A' c && leb c b'F'
    then some (c - b'A' + 10)
    else none

byte_of : Option ℕ → Option ℕ → Result ℕ
byte_of (some high) (some low) = ok (high * 16 + low)
byte_of _ _ = err error

hex_pairs : Text → Result Bytes
unfolding hex_value byte_of
hex_pairs [] = ok []
hex_pairs (h ∷ []) = err error
hex_pairs (h ∷ l ∷ t) = do b ← byte_of (hex_value h) (hex_value l); bs ← hex_pairs t; ok (b ∷ bs)

-- `_hexToBytes`, with or without `0x`.
unfoldable pub hex_to_bytes : Text → Result Bytes
unfolding hex_pairs
hex_to_bytes (c ∷ d ∷ t) = if c == b'0' && d == b'x' then hex_pairs t else hex_pairs (c ∷ d ∷ t)
hex_to_bytes t = hex_pairs t

unfoldable pub pad_to_rns_pub : Bytes → Bytes
pad_to_rns_pub public_key = replicate 32 0 ++ public_key

-- The 32-byte half that the store keeps: `slice(32, 64)`.
unfoldable pub ed25519_half : Bytes → Bytes
ed25519_half public_key = take 32 (drop 32 public_key)

-- The entry of a single key; groups are not stored.
stored_key : Text → IssuerKeyset → Fields → Fields
unfolding ed25519_half
stored_key hash_hex keyset rest = elim keyset.member_public_keys [
  | [] ↦ rest
  | k ∷ ks ↦
      if keyset.threshold == 1 && length ks == 0
      then field hash_hex (bin (ed25519_half k)) rest
      else rest
]

stored_keys : JsMap IssuerKeyset → Fields
unfolding stored_key
stored_keys [] = end
stored_keys ((hash_hex, keyset) ∷ m) = stored_key hash_hex keyset (stored_keys m)

module _ (p : Platform) where
  decoded_box : Result Value → List Bytes
  unfolding byte_strings
  decoded_box (ok (arr vs)) = byte_strings (to_list vs)
  decoded_box _ = []

  box_of : Option Bytes → List Bytes
  unfolding decoded_box
  box_of none = []
  box_of (some b) = decoded_box (p.decode b)

  unfoldable pub load_outbox : Option Bytes → List Bytes
  unfolding box_of
  load_outbox record' = box_of record'

  unfoldable pub save_outbox : List Bytes → Bytes
  save_outbox payloads = p.encode (arr (from_list (map bin payloads)))

  unfoldable pub load_sent : Option Bytes → List Bytes
  unfolding box_of
  load_sent record' = box_of record'

  unfoldable pub save_sent : List Bytes → Bytes
  save_sent payloads = p.encode (arr (from_list (map bin payloads)))

  kept_or : Keyring → Result Keyring → Keyring
  kept_or r (ok s) = s
  kept_or r (err e) = r

  -- One entry: a value that is no 32-byte key or a hash that cannot be read is skipped.
  register_entry : Keyring → Text → Value → Keyring
  unfolding kept_or pad_to_rns_pub hex_to_bytes
  register_entry r hash_hex (bin k) =
      if length k == ed25519_pub_size
      then kept_or r (hex_to_bytes hash_hex >>= λ h. register_single p r h (pad_to_rns_pub k))
      else r
  register_entry r hash_hex v = r

  register_entries : Keyring → Fields → Keyring
  unfolding register_entry
  register_entries r end = r
  register_entries r (field k v fs) = register_entries (register_entry r k v) fs

  decoded_keyring : Result Value → Result Keyring
  unfolding register_entries
  decoded_keyring (err e) = err e
  decoded_keyring (ok (object fs)) = ok (register_entries new_keyring fs)
  decoded_keyring (ok v) = ok new_keyring

  unfoldable pub load_keyring : Option Bytes → Result Keyring
  unfolding decoded_keyring
  load_keyring none = ok new_keyring
  load_keyring (some b) = decoded_keyring (p.decode b)

  unfoldable pub save_keyring : Keyring → Bytes
  unfolding stored_keys
  save_keyring r = p.encode (object (stored_keys r.keysets))
