-- ===== src/Tuple/Preimage.antt =====
-- The pre-image of tuple.js, and with it the key of the state map, identifies a tuple.
use dacar.Common.{
  ◌≤◌, ◌≡◌, ◌↔◌, refl, sym, subst, ◌∙◌, List, [], ◌∷◌, Bytes, Bool, true, arith, length, All,
  append-injective, cons-injective, ok,
}
use dacar.Platform.{Platform, IsHex}
use dacar.Namespace.{hash_size}
use dacar.Namespace.Bits.{bytes_equal_iff}
use dacar.Tuple.{
  Tuple, new_tuple, all_hashes, preimage, concat, key, equals, same_flag, same_hashes, flag,
  max_segments,
}

abbrev pub IsHash : Bytes → Type 0
IsHash h = length h ≡ hash_size

-- What the constructor checks.
pub record IsTuple (t : Tuple) : Type 0 where
  pub relation : IsHash t.relation_hash
  pub grantee : IsHash t.grantee
  pub issuer : IsHash t.issuer
  pub count : length t.object_hashes ≤ max_segments
  pub objects : All IsHash t.object_hashes

all_hashes-All : (hs : List Bytes) → all_hashes hs ≡ true → All IsHash hs
unfolding all_hashes
all_hashes-All [] h = tt
all_hashes-All (x ∷ hs) h = (ground arith, all_hashes-All hs (ground arith))

All-all_hashes : (hs : List Bytes) → All IsHash hs → all_hashes hs ≡ true
unfolding all_hashes
All-all_hashes [] h = refl
All-all_hashes (x ∷ hs) h = ground (arith, h.0, All-all_hashes hs h.1)

-- The constructor accepts the tuples of 16-byte hashes with at most 255 segments, as they are.
pub new_tuple_iff : (init t : Tuple) → (new_tuple init ≡ ok t) ↔ ((init ≡ t) × IsTuple init)
unfolding new_tuple
new_tuple_iff init t = (
  λ e. (
    ground arith,
    record {
      relation = ground arith;
      grantee = ground arith;
      issuer = ground arith;
      count = ground arith;
      objects = all_hashes-All init.object_hashes (ground arith);
    },
  ),
  λ (e, v). ground (
    arith,
    v.relation,
    v.grantee,
    v.issuer,
    v.count,
    All-all_hashes init.object_hashes v.objects,
  ),
)

pub new_tuple-IsTuple : (init t : Tuple) → new_tuple init ≡ ok t → IsTuple t
new_tuple-IsTuple init t e = let (same, v) = (new_tuple_iff init t).0 e in subst IsTuple same v

pub concat-injective :
    (hs os : List Bytes)
    → length hs ≡ length os
    → All IsHash hs
    → All IsHash os
    → concat hs ≡ concat os
    → hs ≡ os
unfolding concat
concat-injective [] [] n h o e = refl
concat-injective [] (y ∷ os) n h o e = absurd (omega arith)
concat-injective (x ∷ hs) [] n h o e = absurd (omega arith)
concat-injective (x ∷ hs) (y ∷ os) n h o e =
    let (first, rest) = append-injective x y (h.0 ∙ sym o.0) e in
    cc (first, concat-injective hs os (omega arith) h.1 o.1 rest)

pub flag-injective : (a b : Bool) → flag a ≡ flag b → a ≡ b
flag-injective a b e = ground arith

-- Two tuples with one pre-image are the same tuple.
pub preimage-injective : (t u : Tuple) → IsTuple t → IsTuple u → preimage t ≡ preimage u → t ≡ u
unfolding preimage
preimage-injective t u v w e =
    let (issuer, e1) = append-injective t.issuer u.issuer (v.issuer ∙ sym w.issuer) e in
    let (grantee, e2) = append-injective t.grantee u.grantee (v.grantee ∙ sym w.grantee) e1 in
    let (relation, e3) =
      append-injective t.relation_hash u.relation_hash (v.relation ∙ sym w.relation) e2 in
    let (wildcard, e4) = cons-injective e3 in
    let (count, objects) = cons-injective e4 in
    cc (
      issuer,
      grantee,
      relation,
      flag-injective t.is_wildcard u.is_wildcard wildcard,
      concat-injective t.object_hashes u.object_hashes count v.objects w.objects objects,
    )

-- Tuples of the constructor share a key of the state map only if they are the same.
pub key-injective :
    (p : Platform) (t u : Tuple) → IsHex p → IsTuple t → IsTuple u → key p t ≡ key p u → t ≡ u
unfolding key
key-injective p t u hex v w e =
    preimage-injective t u v w (hex.to_hex-injective (preimage t) (preimage u) e)

same_hashes-eq : (hs os : List Bytes) → length hs ≡ length os → same_hashes hs os ≡ true → hs ≡ os
unfolding same_hashes
same_hashes-eq [] [] n h = refl
same_hashes-eq [] (o ∷ os) n h = absurd (omega arith)
same_hashes-eq (x ∷ hs) [] n h = absurd (omega arith)
same_hashes-eq (x ∷ hs) (y ∷ os) n h =
    cc (same_hashes-eq hs os (omega arith) (ground arith), (bytes_equal_iff x y).0 (ground arith))

same_hashes_refl : (hs : List Bytes) → same_hashes hs hs ≡ true
unfolding same_hashes
same_hashes_refl [] = refl
same_hashes_refl (x ∷ hs) = ground (arith, same_hashes_refl hs, (bytes_equal_iff x x).1 refl)

equals-eq : (t u : Tuple) → equals t u ≡ true → t ≡ u
unfolding equals same_flag
equals-eq t u h = ground (
  arith,
  bytes_equal_iff t.relation_hash u.relation_hash,
  bytes_equal_iff t.grantee u.grantee,
  bytes_equal_iff t.issuer u.issuer,
  same_hashes-eq t.object_hashes u.object_hashes,
)

equals_refl : (t : Tuple) → equals t t ≡ true
unfolding equals same_flag
equals_refl t = ground (
  arith,
  bytes_equal_iff t.relation_hash t.relation_hash,
  bytes_equal_iff t.grantee t.grantee,
  bytes_equal_iff t.issuer t.issuer,
  same_hashes_refl t.object_hashes,
)

-- The comparison of tuples says `true` exactly on equal ones.
pub equals_iff : (t u : Tuple) → (equals t u ≡ true) ↔ (t ≡ u)
equals_iff t u = (equals-eq t u, λ e. rw e (equals_refl u))
