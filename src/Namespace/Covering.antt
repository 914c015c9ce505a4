-- ===== src/Namespace/Covering.antt =====
-- `covers` of namespace.js against the prefix order on hashed objects.
use dacar.Common.{
  ◌≡◌, refl, List, [], ◌∷◌, ◌++◌, Bytes, Bool, true, false, arith, length, length-append, ◌↔◌,
}
use dacar.Namespace.{covers, starts_with}
use dacar.Namespace.Bits.{bytes_equal_iff}

-- What a tuple's object stands for: all objects below it if it is a wildcard, else itself.
abbrev pub Covers : List Bytes → Bool → List Bytes → Type 0
Covers ts true rs = (rest : List Bytes) × (rs ≡ ts ++ rest)
Covers ts false rs = rs ≡ ts

starts_with-prefix :
    (ts rs : List Bytes) → starts_with ts rs ≡ true → (rest : List Bytes) × (rs ≡ ts ++ rest)
unfolding starts_with
starts_with-prefix [] rs h = (rs, refl)
starts_with-prefix (t ∷ ts) [] h = ground arith
starts_with-prefix (t ∷ ts) (r ∷ rs) h =
    let (rest, e) = starts_with-prefix ts rs (ground arith) in
    (rest, cc (e, (bytes_equal_iff t r).0 (ground arith)))

starts_with-append : (ts rest : List Bytes) → starts_with ts (ts ++ rest) ≡ true
unfolding starts_with
starts_with-append [] rest = refl
starts_with-append (t ∷ ts) rest =
    ground (arith, starts_with-append ts rest, (bytes_equal_iff t t).1 refl)

starts_with-same : (ts rs : List Bytes) → length ts ≡ length rs → starts_with ts rs ≡ true → rs ≡ ts
unfolding starts_with
starts_with-same [] [] e h = refl
starts_with-same [] (r ∷ rs) e h = absurd (omega arith)
starts_with-same (t ∷ ts) [] e h = absurd (omega arith)
starts_with-same (t ∷ ts) (r ∷ rs) e h =
    cc (starts_with-same ts rs (omega arith) (ground arith), (bytes_equal_iff t r).0 (ground arith))

starts_with_refl : (ts : List Bytes) → starts_with ts ts ≡ true
unfolding starts_with
starts_with_refl [] = refl
starts_with_refl (t ∷ ts) = ground (arith, starts_with_refl ts, (bytes_equal_iff t t).1 refl)

covers-Covers : (ts rs : List Bytes) (w : Bool) → covers ts w rs ≡ true → Covers ts w rs
unfolding covers
covers-Covers ts rs true h = starts_with-prefix ts rs (ground arith)
covers-Covers ts rs false h = starts_with-same ts rs (ground arith) (ground arith)

Covers-covers : (ts rs : List Bytes) (w : Bool) → Covers ts w rs → covers ts w rs ≡ true
unfolding covers
Covers-covers ts rs true (rest, e) =
    rw e (ground (arith, length-append ts rest, starts_with-append ts rest))
Covers-covers ts rs false e = rw e (ground (arith, starts_with_refl ts))

-- A tuple covers a request exactly if it is a wildcard and its segments are a prefix of the
-- request's, or it is none and they are the same.
pub covers_iff : (ts rs : List Bytes) (w : Bool) → (covers ts w rs ≡ true) ↔ Covers ts w rs
covers_iff ts rs w = (covers-Covers ts rs w, Covers-covers ts rs w)
