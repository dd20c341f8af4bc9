-- ===== src/Prelude/Tests.antt =====
-- Boolean tests on numbers, the conditional, and what omega reads of them.
use Prim.Native.Nat.{ℕ, compare, Ordering, ◌≤◌, ◌<◌}
use mathlib.Core.Path.{◌≡◌, refl, ap}
use mathlib.Core.Logic.{◌⊎◌, inl, inr}
use mathlib.Core.Bool.{Bool, true, false, not, ◌&&◌}
use mathlib.Core.Option.{Option, none, some}
use native.Mathlib.Omega.{arith}

abbrev pub ltb : ℕ → ℕ → Bool
ltb a b = elim (compare a b) [ Ordering.lt ↦ true | _ ↦ false ]

abbrev pub leb : ℕ → ℕ → Bool
leb a b = elim (compare a b) [ Ordering.gt ↦ false | _ ↦ true ]

infix 50 ◌==◌
abbrev pub ◌==◌ : ℕ → ℕ → Bool
a == b = elim (compare a b) [ Ordering.eq ↦ true | _ ↦ false ]

infix 1 if◌then◌else◌
abbrev pub if◌then◌else◌ {ℓ} : {A : Type ℓ} → Bool → A → A → A
if true then x else y = x
if false then x else y = y

pub ltb→lt : (a b : ℕ) → ltb a b ≡ true → a < b
ltb→lt a b h = ground arith

pub lt→ltb : (a b : ℕ) → a < b → ltb a b ≡ true
lt→ltb a b h = ground arith

pub leb→le : (a b : ℕ) → leb a b ≡ true → a ≤ b
leb→le a b h = ground arith

pub le→leb : (a b : ℕ) → a ≤ b → leb a b ≡ true
le→leb a b h = ground arith

pub ==→eq : (a b : ℕ) → (a == b) ≡ true → a ≡ b
==→eq a b h = ground arith

pub ==-self : (a : ℕ) → (a == a) ≡ true
==-self a = ground arith

pub Bool-cases : (b : Bool) → (b ≡ true) ⊎ (b ≡ false)
Bool-cases true = inl refl
Bool-cases false = inr refl

pub Option-cases {ℓ} : {A : Type ℓ} (o : Option A) → (o ≡ none) ⊎ ((a : A) × (o ≡ some a))
Option-cases none = inl refl
Option-cases (some a) = inr (a, refl)

pub &&-true : (a b : Bool) → (a && b) ≡ true → (a ≡ true) × (b ≡ true)
&&-true a b h = ground arith

pub not-true : (b : Bool) → not b ≡ true → b ≡ false
not-true true h = absurd (cc)
not-true false h = refl

pub not-false : (b : Bool) → not b ≡ false → b ≡ true
not-false true h = refl
not-false false h = absurd (cc)

pub some_injective {ℓ} : {A : Type ℓ} {a b : A} → some a ≡ some b → a ≡ b
some_injective h = cc (h)

module _ {ℓ} {A : Type ℓ} where
  pub if_true : (b : Bool) (x y : A) → b ≡ true → (if b then x else y) ≡ x
  if_true b x y h = ap (λ c. if c then x else y) h

  pub if_false : (b : Bool) (x y : A) → b ≡ false → (if b then x else y) ≡ y
  if_false b x y h = ap (λ c. if c then x else y) h

-- What a conditional answered, by its test.
pub if_cases {ℓ κ} :
    {A : Type ℓ} {P : Type κ} (b : Bool) (x y : A) {r : A}
    → (if b then x else y) ≡ r
    → (b ≡ true → x ≡ r → P)
    → (b ≡ false → y ≡ r → P)
    → P
if_cases true x y h held failed = held refl h
if_cases false x y h held failed = failed refl h

-- The first of two answers, and a step on an answer.
abbrev pub first_of {ℓ} : {A : Type ℓ} → Option A → Option A → Option A
first_of none rest = rest
first_of (some a) rest = some a

abbrev pub and_then {ℓ κ} : {A : Type ℓ} {B : Type κ} → Option A → (A → Option B) → Option B
and_then none f = none
and_then (some a) f = f a

pub first_of_some {ℓ κ} :
    {A : Type ℓ} {P : Type κ} (o rest : Option A) {a : A}
    → first_of o rest ≡ some a
    → (o ≡ some a → P)
    → (rest ≡ some a → P)
    → P
first_of_some none rest h now later = later h
first_of_some (some b) rest h now later = now h

pub and_then_some {ℓ κ λ'} :
    {A : Type ℓ} {B : Type κ} {P : Type λ'} (o : Option A) (f : A → Option B) {b : B}
    → and_then o f ≡ some b
    → ((a : A) → o ≡ some a → f a ≡ some b → P)
    → P
and_then_some none f h k = absurd (cc)
and_then_some (some a) f h k = k a refl h

pub and_then_eq {ℓ κ} :
    {A : Type ℓ} {B : Type κ} (o : Option A) (f g : A → Option B)
    → ((a : A) → o ≡ some a → f a ≡ g a)
    → and_then o f ≡ and_then o g
and_then_eq none f g h = refl
and_then_eq (some a) f g h = h a refl
