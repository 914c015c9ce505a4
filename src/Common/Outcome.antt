-- ===== src/Common/Outcome.antt =====
-- What a call returns or throws. `Failure` has the error classes that the program throws or that
-- the language throws on its behalf.
use mathlib.Core.Path.{◌≡◌, refl}
use mathlib.Core.Bool.{Bool, true, false}

pub data Failure : Type 0 where
  range_error type_error syntax_error error : Failure

pub data Result {ℓ} (Value : Type ℓ) : Type ℓ where
  err : Failure → Result Value
  ok : Value → Result Value

-- A throw skips what follows.
abbrev pub ◌>>=◌ {ℓ κ} :
    {First : Type ℓ} {Then : Type κ} → Result First → (First → Result Then) → Result Then
err failure >>= next = err failure
ok value >>= next = next value

-- `if (!test) throw failure`
abbrev pub require : Bool → Failure → Result (Unit {0})
require false failure = err failure
require true failure = ok tt

abbrev pub ◌>>◌ {ℓ} : {Then : Type ℓ} → Result (Unit {0}) → Result Then → Result Then
check >> next = check >>= λ passed. next

infixl 5 ◌>>◌ ◌>>=◌
pub require-eq-ok :
    (test : Bool) (failure : Failure) {u : Unit {0}} → require test failure ≡ ok u → test ≡ true
require-eq-ok false failure h = cc
require-eq-ok true failure h = refl

-- What was thrown did not return: both calls did.
pub >>=-eq-ok {ℓ κ} :
    {First : Type ℓ} {Then : Type κ} (call : Result First) (next : First → Result Then) {b : Then}
    → (call >>= next) ≡ ok b
    → (value : First) × (call ≡ ok value) × (next value ≡ ok b)
>>=-eq-ok (err failure) next returned = cc
>>=-eq-ok (ok value) next returned = (value, refl, returned)

-- `P` holds of the value, if there is one.
abbrev pub Ensures {ℓ κ} : {A : Type ℓ} → (A → Type κ) → Result A → Type κ
Ensures P (ok a) = P a
Ensures P (err e) = Unit

pub Ensures-bind {ℓ κ μ} :
    {A : Type ℓ} {B : Type κ} (P : B → Type μ) (m : Result A) (f : A → Result B)
    → ((a : A) → m ≡ ok a → Ensures P (f a))
    → Ensures P (m >>= f)
Ensures-bind P (ok a) f h = h a refl
Ensures-bind P (err e) f h = tt

pub Ensures-ok {ℓ κ} :
    {A : Type ℓ} (P : A → Type κ) (r : Result A) (a : A) → Ensures P r → r ≡ ok a → P a
Ensures-ok P r a h e = rw e at h
