-- ===== src/Challenge/Freshness.antt =====
-- The `Receipt` of challenge.js: a signed verdict for one nonce.
use dacar.Common.{
  ℕ, zero, suc, Bool, true, false, ◌||◌, ◌++◌, leb, ◌==◌, if◌then◌else◌, List, [], ◌∷◌, Bytes,
  length, Result, ok, err, error, range_error, type_error, require, ◌>>=◌, ◌>>◌,
}
use dacar.Platform.{Platform}
use dacar.Value.{ℤ, pos, negsuc, Value, int, bin, arr, from_list, expect_array, expect_bytes}
use dacar.Value.BigInt.{big_int}
use dacar.Hlc.{max_hlc}
use dacar.Operation.{signature_size, big_endian, KeyLike, as_identity}
use dacar.Challenge.{nonce_size}

pub data Verdict : Type 0 where
  deny allow : Verdict

abbrev pub verdict_byte : Verdict → ℕ
verdict_byte deny = 0x00
verdict_byte allow = 0x01

abbrev pub is_allow : Verdict → Bool
is_allow deny = false
is_allow allow = true

pub record Receipt : Type 0 where
  pub verdict : Verdict
  pub server_hlc : ℕ
  pub nonce : Bytes
  pub signature : Bytes

unfoldable pub check_server_hlc : ℤ → Result ℕ
check_server_hlc (pos n) = if leb n max_hlc then ok n else err range_error
check_server_hlc (negsuc n) = err range_error

-- The constructor.
unfoldable pub new_receipt : Verdict → ℤ → Bytes → Bytes → Result Receipt
unfolding check_server_hlc
new_receipt verdict server_hlc nonce signature = do
  n ← check_server_hlc server_hlc
  require (length nonce == nonce_size) type_error
  require (length signature == 0 || length signature == signature_size) range_error
  ok (record { verdict = verdict; server_hlc = n; nonce = nonce; signature = signature })

unfoldable pub preimage : Receipt → Bytes
preimage r = verdict_byte r.verdict ∷ big_endian 8 r.server_hlc ++ r.nonce

unfoldable pub read_verdict : Value → Result Verdict
read_verdict (int (pos zero)) = ok deny
read_verdict (int (pos (suc zero))) = ok allow
read_verdict _ = err error

unfoldable pub read_receipt : List Value → Result Receipt
unfolding read_verdict
read_receipt (verdict ∷ server_hlc ∷ nonce ∷ signature ∷ []) = do
  v ← read_verdict verdict
  n ← big_int server_hlc
  nonce_bytes ← expect_bytes nonce nonce_size
  signature_bytes ← expect_bytes signature signature_size
  new_receipt v n nonce_bytes signature_bytes
read_receipt _ = err error

unfoldable pub from_value : Value → Result Receipt
unfolding read_receipt
from_value v = do fields ← expect_array v; read_receipt fields

unfoldable pub to_value : Receipt → Value
to_value r = arr (
    from_list (
      int (pos (verdict_byte r.verdict))
      ∷ int (pos r.server_hlc)
      ∷ bin r.nonce
      ∷ bin r.signature
      ∷ []))

module _ (p : Platform) where
  unfoldable pub sign : Receipt → p.Identity → Result Receipt
  sign r identity = new_receipt r.verdict (pos r.server_hlc) r.nonce (p.sign identity (preimage r))

  unfoldable pub verify : Receipt → KeyLike p → Result Bool
  verify r k =
      if length r.signature == signature_size
      then (as_identity p k >>= λ i. ok (p.validate i r.signature (preimage r)))
      else ok false

  unfoldable pub to_payload : Receipt → Result Bytes
  to_payload r = do require (length r.signature == signature_size) error; ok (p.encode (to_value r))

  unfoldable pub from_payload : Bytes → Result Receipt
  from_payload data' = do v ← p.decode data'; from_value v
