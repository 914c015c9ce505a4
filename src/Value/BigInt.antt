-- ===== src/Value/BigInt.antt =====
-- `BigInt(value)` of the language, on decoded values.
use dacar.Common.{
  ℕ, zero, suc, ◌+◌, ◌-◌, ◌*◌, Bool, true, false, ◌&&◌, ◌||◌, leb, ltb, ◌==◌, if◌then◌else◌, [],
  ◌∷◌, Text, Option, some, none, Result, ok, err, type_error, range_error, syntax_error,
}
use mathlib.Core.List.{reverse}
use dacar.Value.{ℤ, pos, negsuc, Value, nil, bool, int, float, str, bin, arr, object, Values, cons}

unfoldable pub is_space : ℕ → Bool
is_space c =
    (leb 9 c && leb c 13)
    || c == 32
    || c == 0xa0
    || c == 0x1680
    || (leb 0x2000 c && leb c 0x200a)
    || c == 0x2028
    || c == 0x2029
    || c == 0x202f
    || c == 0x205f
    || c == 0x3000
    || c == 0xfeff

unfoldable pub trim_start : Text → Text
trim_start [] = []
trim_start (c ∷ t) = let rest = trim_start t in if is_space c then rest else c ∷ t

unfoldable pub trim : Text → Text
unfolding trim_start is_space
trim t = reverse (trim_start (reverse (trim_start t)))

digit : ℕ → Option ℕ
digit c =
    if leb b'0' c && leb c b'9'
    then some (c - b'0')
    else if leb b'a' c && leb c b'f'
    then some (c - b'a' + 10)
    else if leb b'A' c && leb c b'F'
    then some (c - b'A' + 10)
    else none

module _ (base : ℕ) where
  numeral_from : ℕ → Text → Result ℕ
  numeral_from n [] = ok n
  numeral_from n (c ∷ t) = elim (digit c) [
    | none ↦ err syntax_error
    | some d ↦ if ltb d base then numeral_from (n * base + d) t else err syntax_error
  ]

  numeral : Text → Result ℕ
  unfolding numeral_from digit
  numeral [] = err syntax_error
  numeral (c ∷ t) = numeral_from 0 (c ∷ t)

to_pos : Result ℕ → Result ℤ
to_pos (ok n) = ok (pos n)
to_pos (err e) = err e

to_neg : Result ℕ → Result ℤ
to_neg (ok zero) = ok (pos 0)
to_neg (ok (suc n)) = ok (negsuc n)
to_neg (err e) = err e

-- The digits behind a leading `0`, which may give another base.
prefixed : Text → Result ℕ
unfolding numeral
prefixed [] = numeral 10 (b'0' ∷ [])
prefixed (c ∷ t) =
    if c == b'x' || c == b'X'
    then numeral 16 t
    else if c == b'o' || c == b'O'
    then numeral 8 t
    else if c == b'b' || c == b'B'
    then numeral 2 t
    else numeral 10 (b'0' ∷ c ∷ t)

unsigned : Text → Result ℤ
unfolding prefixed to_pos to_neg numeral
unsigned [] = ok (pos 0)
unsigned (c ∷ t) =
    if c == b'0'
    then to_pos (prefixed t)
    else if c == b'-'
    then to_neg (numeral 10 t)
    else if c == b'+'
    then to_pos (numeral 10 t)
    else to_pos (numeral 10 (c ∷ t))

unfoldable pub string_to_big_int : Text → Result ℤ
unfolding unsigned trim
string_to_big_int t = unsigned (trim t)

-- An array or a byte string is converted through its elements, joined by commas: one element at
-- most can be a numeral. A `null` element is the empty text.
bytes_to_big_int : Text → Result ℤ
bytes_to_big_int [] = ok (pos 0)
bytes_to_big_int (b ∷ []) = ok (pos b)
bytes_to_big_int (b ∷ c ∷ t) = err syntax_error

mutual
  element : Value → Result ℤ
  element nil = ok (pos 0)
  element (bool b) = err syntax_error
  element (int z) = ok z
  element float = err syntax_error
  element (str t) = string_to_big_int t
  element (bin b) = bytes_to_big_int b
  element (arr vs) = elements vs
  element (object fs) = err syntax_error

  elements : Values → Result ℤ
  elements Values.none = ok (pos 0)
  elements (cons v Values.none) = element v
  elements (cons v (cons w vs)) = err syntax_error

unfoldable pub big_int : Value → Result ℤ
unfolding element string_to_big_int bytes_to_big_int
big_int nil = err type_error
big_int (bool false) = ok (pos 0)
big_int (bool true) = ok (pos 1)
big_int (int z) = ok z
big_int float = err range_error
big_int (str t) = string_to_big_int t
big_int (bin b) = bytes_to_big_int b
big_int (arr vs) = elements vs
big_int (object fs) = err syntax_error
