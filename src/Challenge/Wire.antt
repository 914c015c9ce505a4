-- ===== src/Challenge/Wire.antt =====
-- The `Receipt` of challenge.js between two honest sides: what a server signs and encodes, the
-- client decodes, verifies and obeys.
use dacar.Common.{
  ◌≤◌, ◌≡◌, refl, ap, ◌∙◌, true, false, Bytes, Text, List, Result, ok, Option, some, length, arith,
  ◌==◌, ◌>>=◌,
}
use dacar.Platform.{Platform, IsPacking, IsSigning}
use dacar.Value.{pos, int, expect_array, expect_bytes, map_result}
use dacar.Value.BigInt.{big_int}
use dacar.Hlc.{max_hlc}
use dacar.Namespace.{hash_size, NamespaceHasher}
use dacar.Namespace.Bits.{bytes_equal_iff}
use dacar.Operation.{KeyLike, as_identity, signature_size}
use dacar.Config.{Config, hashers}
use dacar.Engine.{evaluate}
use dacar.Challenge
use dacar.Challenge.{nonce_size, generate, new_challenge}
use dacar.Challenge.Freshness.{
  Receipt, Verdict, deny, allow, is_allow, verdict_byte, new_receipt, read_verdict, read_receipt,
  preimage, from_value, to_value, sign, verify, to_payload, from_payload, check_server_hlc,
}
use dacar.Challenge.Exchange.{Client, check_receipt, authorize, new_engine}

-- A receipt that the constructor accepts and a signature completes.
pub record IsReceipt (r : Receipt) : Type 0 where
  pub server_hlc : r.server_hlc ≤ max_hlc
  pub nonce : length r.nonce ≡ nonce_size
  pub signature : length r.signature ≡ signature_size

read_verdict-byte : (v : Verdict) → read_verdict (int (pos (verdict_byte v))) ≡ ok v
unfolding read_verdict
read_verdict-byte deny = refl
read_verdict-byte allow = refl

from_value-to_value : (r : Receipt) → IsReceipt r → from_value (to_value r) ≡ ok r
unfolding from_value to_value expect_array read_receipt expect_bytes new_receipt big_int
    check_server_hlc
from_value-to_value r v =
    ground (arith, read_verdict-byte r.verdict, v.server_hlc, v.nonce, v.signature)

-- A complete receipt is encoded, and its encoding is decoded to the same receipt.
pub from_payload-to_payload_receipt :
    (p : Platform) (r : Receipt)
    → IsPacking p
    → IsReceipt r
    → (data' : Bytes) × (to_payload p r ≡ ok data') × (from_payload p data' ≡ ok r)
unfolding to_payload from_payload
from_payload-to_payload_receipt p r packing v = (
  p.encode (to_value r),
  ground (arith, v.signature),
  rw (packing.decode-encode (to_value r)) (from_value-to_value r v),
)

-- The receipt with the signature of an identity over its preimage.
abbrev pub signed_by : (p : Platform) → p.Identity → Receipt → Receipt
signed_by p i r = record r { signature = p.sign i (preimage r) }

signed_by-IsReceipt :
    (p : Platform) (i : p.Identity) (r : Receipt)
    → IsSigning p
    → r.server_hlc ≤ max_hlc
    → length r.nonce ≡ nonce_size
    → IsReceipt (signed_by p i r)
signed_by-IsReceipt p i r signing fits nonce = record {
  server_hlc = fits;
  nonce = nonce;
  signature = signing.length-sign i (preimage r);
}

sign-signed_by :
    (p : Platform) (i : p.Identity) (r : Receipt)
    → IsSigning p
    → r.server_hlc ≤ max_hlc
    → length r.nonce ≡ nonce_size
    → sign p r i ≡ ok (signed_by p i r)
unfolding sign new_receipt check_server_hlc
sign-signed_by p i r signing fits nonce =
    ground (arith, signing.length-sign i (preimage r), fits, nonce)

verify-signed_by :
    (p : Platform) (i : p.Identity) (r : Receipt) (k : KeyLike p)
    → IsSigning p
    → as_identity p k ≡ ok i
    → verify p (signed_by p i r) k ≡ ok true
unfolding verify preimage
verify-signed_by p i r k signing key =
    ground (arith, key, signing.length-sign i (preimage r), signing.validate-sign i (preimage r))

-- A client whose key is the one of an identity takes the receipt that this identity signs for the
-- client's nonce at its word: signing and encoding do not fail, and the answer is yes exactly if
-- the verdict is `allow`.
pub check_receipt-sign :
    (p : Platform) (c : Client p) (i : p.Identity) (r : Receipt)
    → IsPacking p
    → IsSigning p
    → as_identity p c.public_key ≡ ok i
    → r.server_hlc ≤ max_hlc
    → length r.nonce ≡ nonce_size
    → (payload : Bytes) × ((sign p r i >>= to_payload p) ≡ ok payload)
      × (check_receipt p c r.nonce (ok (some payload)) ≡ ok (is_allow r.verdict))
unfolding check_receipt
check_receipt-sign p c i r packing signing key fits nonce =
    let (payload, encoded, decoded) =
      from_payload-to_payload_receipt p (signed_by p i r) packing
        (signed_by-IsReceipt p i r signing fits nonce) in
    (
      payload,
      ground (arith, sign-signed_by p i r signing fits nonce, encoded),
      ground (
        arith,
        decoded,
        verify-signed_by p i r c.public_key signing key,
        (bytes_equal_iff r.nonce r.nonce).1 refl,
      ),
    )

hashers-some :
    (config : Config) (hs : List NamespaceHasher)
    → hashers config ≡ ok hs
    → (length hs == 0) ≡ false
unfolding hashers map_result
hashers-some config hs e = ground arith

-- A yes of the local evaluation becomes a yes of the exchange where the transport brings back, to
-- every challenge, a receipt for the nonce that says `allow` and that the authority signed: none of
-- the checks of the client refuses an honest answer.
pub authorize_complete :
    (p : Platform) (c : Client p) (i : p.Identity) (r : Receipt) (object_id relation : Text)
    (grantee : Bytes) (hs : List NamespaceHasher) (transport : Bytes → Result (Option Bytes))
    → IsPacking p
    → IsSigning p
    → as_identity p c.public_key ≡ ok i
    → r.server_hlc ≤ max_hlc
    → length r.nonce ≡ nonce_size
    → r.verdict ≡ allow
    → ((challenge : Bytes)
        → transport challenge ≡ (sign p r i >>= to_payload p >>= λ payload. ok (some payload)))
    → length grantee ≡ hash_size
    → hashers c.config ≡ ok hs
    → evaluate p (new_engine c.config c.state) object_id relation grantee ≡ ok true
    → authorize p c object_id relation grantee r.nonce transport ≡ ok true
unfolding authorize generate new_challenge
authorize_complete p c i r object_id relation grantee hs transport packing signing key fits nonce
      yes' honest sized salted local =
    let (payload, made, checked) = check_receipt-sign p c i r packing signing key fits nonce in
    let challenge : Challenge.Challenge = record {
      object_id = object_id;
      relation = relation;
      grantee = grantee;
      nonce = r.nonce;
      hashers = hs;
    } in
    let reply : transport (Challenge.to_payload p challenge) ≡ ok (some payload) =
      honest _ ∙ ap (λ (m : Result Bytes). m >>= λ b. ok (some b)) made in
    ground
      (arith, local, salted, sized, nonce, hashers-some c.config hs salted, reply, checked, yes')
