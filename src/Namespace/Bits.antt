-- ===== src/Namespace/Bits.antt =====
-- `bytesEqual` of namespace.js, whose loop gathers the differences of the bytes by `|` and `^`,
-- decides equality.
use Prim.Native.Nat.{bit_or, bit_xor, bit_or-bitwise, bit_xor-bitwise, digits, differ, max}
use dacar.Common.{
  ℕ, zero, suc, ◌/◌, ◌%◌, ◌≤◌, ◌<◌, ◌≡◌, refl, [], ◌∷◌, Bytes, true, arith, length, ◌↔◌, sym, ◌∙◌,
}
use dacar.Namespace.{bytes_equal, differences}

differ_digits : (x y : ℕ) → x < 2 → y < 2 → differ x y ≡ 0 → x ≡ y
differ_digits zero y hx hy e = sym e
differ_digits (suc x) zero hx hy e = e
differ_digits (suc x) (suc y) hx hy e =
    omega (arith, differ_digits x y (omega arith) (omega arith) e)

differ_self : (x : ℕ) → differ x x ≡ 0
differ_self zero = refl
differ_self (suc x) = differ_self x

xor_zero_digits : (n a b : ℕ) → a ≤ n → digits (λ b. b) differ n a b ≡ 0 → a ≡ b
xor_zero_digits zero zero b h e = sym e
xor_zero_digits zero (suc a) b h e = absurd (omega arith)
xor_zero_digits (suc n) zero b h e = sym e
xor_zero_digits (suc n) (suc a) b h e =
    let high = xor_zero_digits n (suc a / 2) (b / 2) (omega arith) (omega arith) in
    let low = differ_digits (suc a % 2) (b % 2) (omega arith) (omega arith) (omega arith) in
    omega arith

xor_self_digits : (n a : ℕ) → a ≤ n → digits (λ b. b) differ n a a ≡ 0
xor_self_digits zero zero h = refl
xor_self_digits zero (suc a) h = absurd (omega arith)
xor_self_digits (suc n) zero h = refl
xor_self_digits (suc n) (suc a) h =
    omega (arith, xor_self_digits n (suc a / 2) (omega arith), differ_self (suc a % 2))

pub bit_xor-eq-zero : (a b : ℕ) → bit_xor a b ≡ 0 → a ≡ b
bit_xor-eq-zero a b e = xor_zero_digits a a b (omega arith) (sym (bit_xor-bitwise a b) ∙ e)

pub bit_xor_self : (a : ℕ) → bit_xor a a ≡ 0
bit_xor_self a = bit_xor-bitwise a a ∙ xor_self_digits a a (omega arith)

or_zero_digits : (n a b : ℕ) → a ≤ n → digits (λ b. b) max n a b ≡ 0 → (a ≡ 0) × (b ≡ 0)
or_zero_digits zero zero b h e = (refl, e)
or_zero_digits zero (suc a) b h e = absurd (omega arith)
or_zero_digits (suc n) zero b h e = (refl, e)
or_zero_digits (suc n) (suc a) b h e =
    let high = or_zero_digits n (suc a / 2) (b / 2) (omega arith) (omega arith) in
    absurd (omega arith)

pub bit_or-eq-zero : (a b : ℕ) → bit_or a b ≡ 0 → (a ≡ 0) × (b ≡ 0)
bit_or-eq-zero a b e = or_zero_digits a a b (omega arith) (sym (bit_or-bitwise a b) ∙ e)

differences_zero :
    (d : ℕ) (a b : Bytes) → length a ≡ length b → differences d a b ≡ 0 → (d ≡ 0) × (a ≡ b)
unfolding differences
differences_zero d [] [] h e = (e, refl)
differences_zero d [] (y ∷ b) h e = absurd (omega arith)
differences_zero d (x ∷ a) [] h e = absurd (omega arith)
differences_zero d (x ∷ a) (y ∷ b) h e =
    let r = differences_zero (bit_or d (bit_xor x y)) a b (omega arith) e in
    let s = bit_or-eq-zero d (bit_xor x y) (r.0) in (s.0, cc (bit_xor-eq-zero x y (s.1), r.1))

differences_self : (a : Bytes) → differences 0 a a ≡ 0
unfolding differences
differences_self [] = refl
differences_self (x ∷ a) = rw (bit_xor_self x) (differences_self a)

bytes_equal-eq : (a b : Bytes) → bytes_equal a b ≡ true → a ≡ b
unfolding bytes_equal
bytes_equal-eq a b h = ground (arith, λ (e : length a ≡ length b). differences_zero 0 a b e)

bytes_equal_refl : (a : Bytes) → bytes_equal a a ≡ true
unfolding bytes_equal
bytes_equal_refl a = ground (arith, differences_self a)

-- The comparison of byte strings says `true` exactly on equal ones.
pub bytes_equal_iff : (a b : Bytes) → (bytes_equal a b ≡ true) ↔ (a ≡ b)
bytes_equal_iff a b = (bytes_equal-eq a b, λ e. rw e (bytes_equal_refl b))
