-- ===== src/Operation/Preimages.antt =====
-- The signature pre-image of operation.js binds the whole operation but its signatures.
use dacar.Common.{
  ℕ, zero, suc, ◌/◌, ◌%◌, ◌^◌, ◌≤◌, ◌<◌, ◌≡◌, refl, sym, ◌∙◌, [], ◌∷◌, arith, length, length-append,
  append-injective, cons-injective,
}
use native.Mathlib.Nat.{pow-suc}
use dacar.Hlc.{max_hlc}
use dacar.Tuple.Preimage.{flag-injective, concat-injective}
use dacar.Operation.{Operation, Action, action_byte, preimage, big_endian, hlc_bytes}
use dacar.Operation.Payload.{IsOperation}

length-big_endian : (n x : ℕ) → length (big_endian n x) ≡ n
unfolding big_endian
length-big_endian zero x = refl
length-big_endian (suc n) x =
    omega (
      arith,
      length-append (big_endian n (x / 256)) ((x % 256) ∷ []),
      length-big_endian n (x / 256),
    )

quotient_bound : (n x : ℕ) → x < 256 ^ suc n → x / 256 < 256 ^ n
quotient_bound n x h = omega (arith, pow-suc 256 n)

big_endian-injective :
    (n x y : ℕ) → x < 256 ^ n → y < 256 ^ n → big_endian n x ≡ big_endian n y → x ≡ y
unfolding big_endian
big_endian-injective zero x y hx hy e = omega arith
big_endian-injective (suc n) x y hx hy e =
    let (high, low) =
      append-injective (big_endian n (x / 256)) (big_endian n (y / 256))
        (length-big_endian n (x / 256) ∙ sym (length-big_endian n (y / 256))) e in
    omega (
      arith,
      (cons-injective low).0,
      big_endian-injective n (x / 256) (y / 256) (quotient_bound n x hx) (quotient_bound n y hy)
          high,
    )

action_byte-injective : (a b : Action) → action_byte a ≡ action_byte b → a ≡ b
action_byte-injective a b e = ground arith

-- Two well-formed operations with one pre-image have the same tuple, action and clock: a signature
-- cannot be carried over to another grant, to a revocation or to another time.
pub preimage-injective_signed :
    (o q : Operation)
    → IsOperation o
    → IsOperation q
    → preimage o ≡ preimage q
    → (o.tuple ≡ q.tuple) × (o.action ≡ q.action) × (o.hlc ≡ q.hlc)
unfolding preimage
preimage-injective_signed o q v w e =
    let t = o.tuple in
    let u = q.tuple in
    let (issuer, e1) = append-injective t.issuer u.issuer (v.tuple.issuer ∙ sym w.tuple.issuer) e in
    let (grantee, e2) =
      append-injective t.grantee u.grantee (v.tuple.grantee ∙ sym w.tuple.grantee) e1 in
    let (action, e3) = cons-injective e2 in
    let (clock, e4) =
      append-injective (big_endian hlc_bytes o.hlc) (big_endian hlc_bytes q.hlc)
        (length-big_endian hlc_bytes o.hlc ∙ sym (length-big_endian hlc_bytes q.hlc)) e3 in
    let (relation, e5) =
      append-injective t.relation_hash u.relation_hash (v.tuple.relation ∙ sym w.tuple.relation)
        e4 in
    let (wildcard, e6) = cons-injective e5 in
    let (count, objects) = cons-injective e6 in
    (
      cc (
        issuer,
        grantee,
        relation,
        flag-injective t.is_wildcard u.is_wildcard wildcard,
        concat-injective t.object_hashes u.object_hashes count v.tuple.objects w.tuple.objects
            objects,
      ),
      action_byte-injective o.action q.action action,
      big_endian-injective hlc_bytes o.hlc q.hlc (below v.hlc) (below w.hlc) clock,
    )
  where
    below : {x : ℕ} → x ≤ max_hlc → x < 256 ^ hlc_bytes
    below h = omega arith
