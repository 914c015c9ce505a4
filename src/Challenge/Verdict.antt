-- ===== src/Challenge/Verdict.antt =====
-- What a `true` of `authorize` in challenge.js says.
use dacar.Common.{
  ◌≡◌, refl, ap, ◌∙◌, Bool, true, false, List, Bytes, Text, Result, ok, err, Option, none, some,
  >>=-eq-ok, arith, if◌then◌else◌, ◌>>=◌,
}
use dacar.Platform.{Platform}
use dacar.Namespace.{bytes_equal, NamespaceHasher}
use dacar.Namespace.Bits.{bytes_equal_iff}
use dacar.Operation.{as_identity}
use dacar.Config.{hashers}
use dacar.Engine.{evaluate}
use dacar.Challenge.{Challenge, generate, to_payload}
use dacar.Challenge.Freshness.{Receipt, Verdict, allow, deny, is_allow, preimage}
use dacar.Challenge.Freshness
use dacar.Challenge.Exchange.{Client, authorize, new_engine, check_receipt}

if-true :
    (b : Bool) (r : Result Bool)
    → (if b then r else ok false) ≡ ok true
    → (b ≡ true) × (r ≡ ok true)
if-true b r e = (ground arith, ground arith)

generated :
    (object_id relation : Text) (grantee random : Bytes) (hs : List NamespaceHasher) (c : Challenge)
    → generate object_id relation grantee hs none random ≡ ok c
    → (c.object_id ≡ object_id)
      × (c.relation ≡ relation)
      × (c.grantee ≡ grantee)
      × (c.nonce ≡ random)
unfolding generate
generated object_id relation grantee random hs c e =
    (ground arith, ground arith, ground arith, ground arith)

module _ (p : Platform) (c : Client p) where
  -- The transport brought back a receipt for this nonce, with the verdict `allow` and a signature
  -- that is valid under the configured key.
  pub record Confirmed (nonce : Bytes) (reply : Result (Option Bytes)) : Type 0 where
    pub payload : Bytes
    pub arrived : reply ≡ ok (some payload)
    pub receipt : Receipt
    pub decoded : Freshness.from_payload p payload ≡ ok receipt
    pub fresh : receipt.nonce ≡ nonce
    pub allows : receipt.verdict ≡ allow
    pub authority : p.Identity
    pub key : as_identity p c.public_key ≡ ok authority
    pub signed : p.validate authority receipt.signature (preimage receipt) ≡ true

  verify-true :
      (r : Receipt)
      → Freshness.verify p r c.public_key ≡ ok true
      → (i : p.Identity) × (as_identity p c.public_key ≡ ok i)
        × (p.validate i r.signature (preimage r) ≡ true)
  unfolding Freshness.verify
  verify-true r e =
      let (i, key, valid) =
        >>=-eq-ok (as_identity p c.public_key) (λ i. ok (p.validate i r.signature (preimage r)))
          {b = true} (ground arith) in
      (i, key, cc)

  receipt-true :
      (r : Receipt) (nonce : Bytes)
      → (if bytes_equal r.nonce nonce
          then (Freshness.verify p r c.public_key >>= λ valid.
              if valid then ok (is_allow r.verdict) else ok false)
          else ok false)
        ≡ ok true
      → (r.nonce ≡ nonce) × (r.verdict ≡ allow) × (Freshness.verify p r c.public_key ≡ ok true)
  receipt-true r nonce e =
      let (valid, verified, rest) =
        >>=-eq-ok (Freshness.verify p r c.public_key)
          (λ v. if v then ok (is_allow r.verdict) else ok false) {b = true} (ground arith) in
      ((bytes_equal_iff _ _).0 (ground arith), allowed valid rest, verified ∙ trusted valid rest)
    where
      allowed :
          (valid : Bool)
          → (if valid then ok (is_allow r.verdict) else ok false) ≡ ok true
          → r.verdict ≡ allow
      allowed valid h = ground arith

      trusted :
          (valid : Bool)
          → (if valid then ok (is_allow r.verdict) else ok false) ≡ ok true
          → ok valid ≡ ok true
      trusted valid h = ground arith

  check_receipt-Confirmed :
      (nonce : Bytes) (reply : Result (Option Bytes))
      → check_receipt p c nonce reply ≡ ok true
      → Confirmed nonce reply
  unfolding check_receipt
  check_receipt-Confirmed nonce (err e) h = cc
  check_receipt-Confirmed nonce (ok none) h = cc
  check_receipt-Confirmed nonce (ok (some payload)) h =
      let (r, decoded, checked) = >>=-eq-ok (Freshness.from_payload p payload) _ h in
      let (fresh, allows, verified) = receipt-true r nonce checked in
      let (i, key, signed) = verify-true r verified in
      record {
        payload = payload;
        arrived = refl;
        receipt = r;
        decoded = decoded;
        fresh = fresh;
        allows = allows;
        authority = i;
        key = key;
        signed = signed;
      }

  -- The answer is yes only if the local evaluation says yes and the transport, given the challenge
  -- with the nonce just drawn for this request, brought back a receipt for that nonce that says
  -- `allow` and is signed by the authority. No answer, an error or another nonce is never a yes.
  pub authorize_sound :
      (object_id relation : Text) (grantee random : Bytes)
      (transport : Bytes → Result (Option Bytes))
      → authorize p c object_id relation grantee random transport ≡ ok true
      → (evaluate p (new_engine c.config c.state) object_id relation grantee ≡ ok true)
        × (challenge : Challenge) × (challenge.nonce ≡ random)
        × (challenge.object_id ≡ object_id)
        × (challenge.relation ≡ relation)
        × (challenge.grantee ≡ grantee)
        × Confirmed random (transport (to_payload p challenge))
  unfolding authorize
  authorize_sound object_id relation grantee random transport e =
      let (local, evaluated, rest) =
        >>=-eq-ok (evaluate p (new_engine c.config c.state) object_id relation grantee) _ e in
      let (yes', exchanged) = if-true local _ rest in
      let (hs, salted, asked) = >>=-eq-ok (hashers c.config) _ exchanged in
      let (challenge, made, checked) =
        >>=-eq-ok (generate object_id relation grantee hs none random) _ asked in
      let (object_id', relation', grantee', nonce) =
        generated object_id relation grantee random hs challenge made in
      (
        evaluated ∙ ap ok yes',
        challenge,
        nonce,
        object_id',
        relation',
        grantee',
        check_receipt-Confirmed random (transport (to_payload p challenge)) (rw nonce at checked),
      )
