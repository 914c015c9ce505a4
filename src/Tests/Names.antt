-- ===== src/Tests/Names.antt =====
-- Objects and tuples of namespace.js and tuple.js.
use dacar.Common.{◌≡◌, ◌↔◌, refl, true, [], ◌∷◌}
use dacar.Platform.Sample.{sample, sample-IsHex}
use dacar.Namespace.{covers}
use dacar.Namespace.Covering.{Covers, covers_iff}
use dacar.Tuple.Preimage.{key-injective}
use dacar.Tests.Fixture.{hash_of, light, light-IsTuple}

covers_iff_example :
    (covers (hash_of 10 ∷ []) true (hash_of 10 ∷ hash_of 11 ∷ []) ≡ true)
    ↔ Covers (hash_of 10 ∷ []) true (hash_of 10 ∷ hash_of 11 ∷ [])
covers_iff_example = covers_iff (hash_of 10 ∷ []) (hash_of 10 ∷ hash_of 11 ∷ []) true

key-injective_example : light ≡ light
key-injective_example =
    key-injective sample light light sample-IsHex light-IsTuple light-IsTuple refl
