-- ===== src/Platform/Coding.antt =====
-- A MessagePack stand-in for the concrete platform of the tests: a tag before each value and a
-- count before each text. It is no part of the program.
use dacar.Common.{
  ℕ, zero, suc, ◌+◌, ◌≤◌, max, ◌≡◌, refl, true, false, [], ◌∷◌, ◌++◌, Bytes, Text, length,
  length-append, Option, none, some, arith, Result, ok, err, error,
}
use dacar.Value.{
  pos, negsuc, Value, nil, bool, int, float, str, bin, arr, object, Values, cons, Fields, end,
  field,
}

mutual
  write : Value → Bytes → Bytes
  write nil r = 0 ∷ r
  write (bool false) r = 1 ∷ r
  write (bool true) r = 2 ∷ r
  write (int (pos n)) r = 3 ∷ n ∷ r
  write (int (negsuc n)) r = 4 ∷ n ∷ r
  write float r = 5 ∷ r
  write (str t) r = 6 ∷ length t ∷ t ++ r
  write (bin b) r = 7 ∷ length b ∷ b ++ r
  write (arr vs) r = 8 ∷ write_values vs r
  write (object fs) r = 9 ∷ write_fields fs r

  write_values : Values → Bytes → Bytes
  write_values Values.none r = 0 ∷ r
  write_values (cons v vs) r = 1 ∷ write v (write_values vs r)

  write_fields : Fields → Bytes → Bytes
  write_fields end r = 0 ∷ r
  write_fields (field t v fs) r = 1 ∷ length t ∷ t ++ write v (write_fields fs r)

abbrev Read : Type 0 → Type 0
Read A = Option (A × Bytes)

infixl 5 ◌>>=◌
abbrev ◌>>=◌ : {A B : Type 0} → Read A → (A × Bytes → Read B) → Read B
none >>= f = none
some r >>= f = f r

read_text : ℕ → Bytes → Read Text
read_text zero r = some ([], r)
read_text (suc n) [] = none
read_text (suc n) (c ∷ r) = read_text n r >>= λ (t, s). some (c ∷ t, s)

read_counted : Bytes → Read Text
unfolding read_text
read_counted [] = none
read_counted (n ∷ r) = read_text n r

read_number : (ℕ → Value) → Bytes → Read Value
read_number f [] = none
read_number f (n ∷ r) = some (f n, r)

-- By the tag, with the readers of lists and of fields.
read_tagged : (Bytes → Read Values) → (Bytes → Read Fields) → ℕ → Bytes → Read Value
unfolding read_counted read_number
read_tagged vs fs zero r = some (nil, r)
read_tagged vs fs (suc zero) r = some (bool false, r)
read_tagged vs fs (suc (suc zero)) r = some (bool true, r)
read_tagged vs fs (suc (suc (suc zero))) r = read_number (λ n. int (pos n)) r
read_tagged vs fs (suc (suc (suc (suc zero)))) r = read_number (λ n. int (negsuc n)) r
read_tagged vs fs (suc (suc (suc (suc (suc zero))))) r = some (float, r)
read_tagged vs fs (suc (suc (suc (suc (suc (suc zero)))))) r =
    read_counted r >>= λ (t, s). some (str t, s)
read_tagged vs fs (suc (suc (suc (suc (suc (suc (suc zero))))))) r =
    read_counted r >>= λ (t, s). some (bin t, s)
read_tagged vs fs (suc (suc (suc (suc (suc (suc (suc (suc zero)))))))) r =
    vs r >>= λ (v, s). some (arr v, s)
read_tagged vs fs (suc (suc (suc (suc (suc (suc (suc (suc (suc t))))))))) r =
    fs r >>= λ (v, s). some (object v, s)

mutual
  read : ℕ → Bytes → Read Value
  read zero r = none
  read (suc n) [] = none
  read (suc n) (tag ∷ r) = read_tagged (read_values n) (read_fields n) tag r

  read_values : ℕ → Bytes → Read Values
  read_values zero r = none
  read_values (suc n) [] = none
  read_values (suc n) (zero ∷ r) = some (Values.none, r)
  read_values (suc n) (suc t ∷ r) =
      read n r >>= λ (v, s). read_values n s >>= λ (vs, u). some (cons v vs, u)

  read_fields : ℕ → Bytes → Read Fields
  read_fields zero r = none
  read_fields (suc n) [] = none
  read_fields (suc n) (zero ∷ r) = some (end, r)
  read_fields (suc n) (suc t ∷ r) = read_counted r >>= λ (k, s).
      read n s >>= λ (v, u). read_fields n u >>= λ (fs, w). some (field k v fs, w)

mutual
  height : Value → ℕ
  height (arr vs) = suc (height_values vs)
  height (object fs) = suc (height_fields fs)
  height _ = 1

  height_values : Values → ℕ
  height_values Values.none = 1
  height_values (cons v vs) = suc (max (height v) (height_values vs))

  height_fields : Fields → ℕ
  height_fields end = 1
  height_fields (field k v fs) = suc (max (height v) (height_fields fs))

height_pos : (v : Value) → 1 ≤ height v
unfolding height
height_pos nil = omega arith
height_pos (arr vs) = omega arith
height_pos (object fs) = omega arith
height_pos _ = omega arith

height_values_pos : (vs : Values) → 1 ≤ height_values vs
unfolding height_values
height_values_pos Values.none = omega arith
height_values_pos (cons v vs) = omega arith

height_fields_pos : (fs : Fields) → 1 ≤ height_fields fs
unfolding height_fields
height_fields_pos end = omega arith
height_fields_pos (field k v fs) = omega arith

read_text-append : (t : Text) (r : Bytes) → read_text (length t) (t ++ r) ≡ some (t, r)
unfolding read_text
read_text-append [] r = refl
read_text-append (c ∷ t) r = ground (arith, read_text-append t r)

mutual
  unfolding read read_tagged read_number read_counted write height

  read-write : (n : ℕ) (v : Value) (r : Bytes) → height v ≤ n → read n (write v r) ≡ some (v, r)
  read-write zero v r h = absurd (omega (arith, height_pos v))
  read-write (suc n) nil r h = refl
  read-write (suc n) (bool false) r h = refl
  read-write (suc n) (bool true) r h = refl
  read-write (suc n) (int (pos m)) r h = refl
  read-write (suc n) (int (negsuc m)) r h = refl
  read-write (suc n) float r h = refl
  read-write (suc n) (str t) r h = ground (arith, read_text-append t r)
  read-write (suc n) (bin b) r h = ground (arith, read_text-append b r)
  read-write (suc n) (arr vs) r h = ground (arith, read_values-write n vs r (omega arith))
  read-write (suc n) (object fs) r h = ground (arith, read_fields-write n fs r (omega arith))

  read_values-write :
      (n : ℕ) (vs : Values) (r : Bytes)
      → height_values vs ≤ n
      → read_values n (write_values vs r) ≡ some (vs, r)
  read_values-write zero vs r h = absurd (omega (arith, height_values_pos vs))
  read_values-write (suc n) Values.none r h = refl
  read_values-write (suc n) (cons v vs) r h = ground (
    arith,
    read-write n v (write_values vs r) (omega arith),
    read_values-write n vs r (omega arith),
  )

  read_fields-write :
      (n : ℕ) (fs : Fields) (r : Bytes)
      → height_fields fs ≤ n
      → read_fields n (write_fields fs r) ≡ some (fs, r)
  read_fields-write zero fs r h = absurd (omega (arith, height_fields_pos fs))
  read_fields-write (suc n) end r h = refl
  read_fields-write (suc n) (field k v fs) r h = ground (
    arith,
    read_text-append k (write v (write_fields fs r)),
    read-write n v (write_fields fs r) (omega arith),
    read_fields-write n fs r (omega arith),
  )

mutual
  unfolding write height

  height-le : (v : Value) (r : Bytes) → height v + length r ≤ length (write v r)
  height-le nil r = omega arith
  height-le (bool false) r = omega arith
  height-le (bool true) r = omega arith
  height-le (int (pos n)) r = omega arith
  height-le (int (negsuc n)) r = omega arith
  height-le float r = omega arith
  height-le (str t) r = omega (arith, length-append t r)
  height-le (bin b) r = omega (arith, length-append b r)
  height-le (arr vs) r = omega (arith, height_values-le vs r)
  height-le (object fs) r = omega (arith, height_fields-le fs r)

  height_values-le :
      (vs : Values) (r : Bytes) → height_values vs + length r ≤ length (write_values vs r)
  height_values-le Values.none r = omega arith
  height_values-le (cons v vs) r =
      omega (arith, height-le v (write_values vs r), height_values-le vs r, height_pos v)

  height_fields-le :
      (fs : Fields) (r : Bytes) → height_fields fs + length r ≤ length (write_fields fs r)
  height_fields-le end r = omega arith
  height_fields-le (field k v fs) r = omega (
    arith,
    height-le v (write_fields fs r),
    height_fields-le fs r,
    height_pos v,
    length-append k (write v (write_fields fs r)),
  )

whole : Read Value → Result Value
whole (some (v, [])) = ok v
whole _ = err error

unfoldable pub encode : Value → Bytes
unfolding write
encode v = write v []

unfoldable pub decode : Bytes → Result Value
unfolding whole read read_tagged read_counted read_number read_text
decode b = whole (read (length b) b)

pub decode-encode : (v : Value) → decode (encode v) ≡ ok v
unfolding decode encode
decode-encode v = rw (read-write (length (write v [])) v [] (omega (arith, height-le v []))) refl
