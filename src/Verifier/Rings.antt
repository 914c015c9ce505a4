-- ===== src/Verifier/Rings.antt =====
-- The keyring of verifier.js as a map from issuers to keysets.
use dacar.Common.{
  ◌≡◌, ap, Bytes, none, some, ok, arith, length, list_eq, list_eq_iff, if◌then◌else◌, Bool,
  Bool-cases, inl, inr,
}
use dacar.JsMap.Laws.{get-set, get-delete}
use dacar.Platform.{Platform, IsHex}
use dacar.Namespace.{hash_size}
use dacar.Keyset.{IssuerKeyset}
use dacar.Verifier.{Keyring, register, resolve, forget, has}

module _ (p : Platform) (hex : IsHex p) where
  hex_list_eq : (a b : Bytes) → list_eq (p.to_hex a) (p.to_hex b) ≡ list_eq a b
  hex_list_eq a b = elim (Bool-cases (list_eq a b)) [
    | inl e ↦ rw e ((list_eq_iff _ _).1 (ap p.to_hex ((list_eq_iff a b).0 e)))
    | inr e ↦
        ground
          (arith, list_eq_iff a b, list_eq_iff (p.to_hex a) (p.to_hex b), hex.to_hex-injective a b)
  ]

  -- After a registration, the issuer resolves to its new keyset and every other to what it did.
  pub resolve-register :
      (r r' : Keyring) (issuer other : Bytes) (keyset : IssuerKeyset)
      → register p r issuer keyset ≡ ok r'
      → length other ≡ hash_size
      → resolve p r' other ≡ (if list_eq issuer other then ok (some keyset) else resolve p r other)
  unfolding register resolve
  resolve-register r r' issuer other keyset e size = ground (
    arith,
    size,
    get-set r.keysets (p.to_hex issuer) (p.to_hex other) keyset,
    hex_list_eq issuer other,
  )

  -- A forgotten issuer no longer resolves, every other resolves as before, and the answer says
  -- whether the issuer was there.
  pub resolve-forget :
      (r r' : Keyring) (issuer other : Bytes) (found : Bool)
      → forget p r issuer ≡ ok (found, r')
      → length other ≡ hash_size
      → (has p r issuer ≡ ok found)
        × (resolve p r' other ≡ (if list_eq issuer other then ok none else resolve p r other))
  unfolding forget resolve has
  resolve-forget r r' issuer other found e size = (
    ground arith,
    ground (
      arith,
      size,
      get-delete r.keysets (p.to_hex issuer) (p.to_hex other),
      hex_list_eq issuer other,
    ),
  )
