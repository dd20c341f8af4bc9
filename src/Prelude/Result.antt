-- ===== src/Prelude/Result.antt =====
-- A checked step returns a value or the message of the exception that it raises.
use mathlib.Core.Path.{◌≡◌, refl}
use mathlib.Core.Bool.{Bool, true, false}
use Prim.Native.String.{String}

pub data Result {ℓ} (Value : Type ℓ) : Type ℓ where
  err : String → Result Value
  ok : Value → Result Value

-- `require(condition, message)`
abbrev pub require : Bool → String → Result (Unit {0})
require false message = err message
require true message = ok tt

-- What follows runs on the value; an exception passes through.
abbrev pub ◌>>=◌ {ℓ κ} :
    {Value : Type ℓ} {Next : Type κ} → Result Value → (Value → Result Next) → Result Next
◌>>=◌ (err message) rest = err message
◌>>=◌ (ok value) rest = rest value

abbrev pub ◌>>◌ {ℓ} : {Next : Type ℓ} → Result (Unit {0}) → Result Next → Result Next
◌>>◌ check rest = ◌>>=◌ check (λ _. rest)

infixl 5 ◌>>=◌ ◌>>◌
-- The parts of a chain that succeeded, handed to the rest of a proof.
pub bind_ok {ℓ κ λ'} :
    {A : Type ℓ} {B : Type κ} {P : Type λ'} (m : Result A) (f : A → Result B) {b : B}
    → (m >>= f) ≡ ok b
    → ((a : A) → m ≡ ok a → f a ≡ ok b → P)
    → P
bind_ok (err e) f h k = absurd (cc)
bind_ok (ok a) f h k = k a refl h

pub guard_ok {ℓ κ} :
    {B : Type ℓ} {P : Type κ} (t : Bool) (message : String) (r : Result B) {b : B}
    → (require t message >> r) ≡ ok b
    → (t ≡ true → r ≡ ok b → P)
    → P
guard_ok true message r h k = k refl h
guard_ok false message r h k = absurd (cc)

pub require_ok : (t : Bool) (message : String) → require t message ≡ ok tt → t ≡ true
require_ok true message h = refl
require_ok false message h = absurd (cc)

pub ok-injective {ℓ} : {A : Type ℓ} (a b : A) → ok a ≡ ok b → a ≡ b
ok-injective a b h = cc
