-- ===== src/Value.antt =====
-- The values that `MsgPack.decode` returns and `MsgPack.encode` takes, and the conversions and
-- checks that the decoders of operation.js, crdt.js and challenge.js apply to them.
pub mod BigInt
use dacar.Common.{
  ℕ, Bool, true, false, Bytes, Text, List, [], ◌∷◌, Result, ok, err, error, length, ◌==◌,
  if◌then◌else◌, ◌>>=◌, Failure,
}

-- An integral `number` or a `bigint`; `negsuc n` is -(n + 1).
pub data ℤ : Type 0 where
  pos : ℕ → ℤ
  negsuc : ℕ → ℤ

-- `float` stands for the numbers that are no integers.
mutual
  pub data Value : Type 0 where
    nil : Value
    bool : Bool → Value
    int : ℤ → Value
    float : Value
    str : Text → Value
    bin : Bytes → Value
    arr : Values → Value
    object : Fields → Value

  pub data Values : Type 0 where
    none : Values
    cons : Value → Values → Values

  pub data Fields : Type 0 where
    end : Fields
    field : Text → Value → Fields → Fields

abbrev pub from_list : List Value → Values
from_list [] = Values.none
from_list (v ∷ vs) = cons v (from_list vs)

abbrev pub to_list : Values → List Value
to_list Values.none = []
to_list (cons v vs) = v ∷ to_list vs

-- `Array.isArray(value)`, with the elements.
unfoldable pub expect_array : Value → Result (List Value)
expect_array (arr vs) = ok (to_list vs)
expect_array _ = err error

unfoldable pub expect_bytes : Value → ℕ → Result Bytes
expect_bytes (bin b) len = if length b == len then ok b else err error
expect_bytes _ len = err error

unfoldable pub expect_bool : Value → Result Bool
expect_bool (bool b) = ok b
expect_bool _ = err error

-- `values.map(f)` where `f` may throw.
unfoldable pub map_result {ℓ κ} :
    {A : Type ℓ} {B : Type κ} → (A → Result B) → List A → Result (List B)
map_result f [] = ok []
map_result f (x ∷ xs) = do y ← f x; ys ← map_result f xs; ok (y ∷ ys)

-- `objectHashes.map(…)`: a value that is no array has no `map` to call.
unfoldable pub map_array : {B : Type 0} → (Value → Result B) → Value → Result (List B)
unfolding map_result
map_array f (arr vs) = map_result f (to_list vs)
map_array f _ = err Failure.type_error
