-- ===== src/Prelude/Decimal.antt =====
-- Python's `str(n)` and `int(text)` on natural numbers, and the numerals of `[1-9]\d*`.
use Prim.Native.Nat.{ℕ, zero, suc, ◌+◌, ◌-◌, ◌*◌, ◌/◌, ◌%◌, ◌<◌}
use mathlib.Core.Path.{◌≡◌, refl}
use mathlib.Core.Bool.{Bool, true, false, ◌&&◌, ◌||◌}
use mathlib.Core.List.{[], ◌∷◌}
use mathlib.Core.Logic.{inl, inr}
use native.Mathlib.Omega.{arith}
use inverter_gateway.Prelude.Tests.{leb, ltb, ◌==◌, if◌then◌else◌, Bool-cases}
use inverter_gateway.Prelude.Lists.{all}
use inverter_gateway.Prelude.Chars.{Text, is_digit, is_empty}

-- The loop of `str`, last digit first; the fuel is one more than the number.
emit : ℕ → ℕ → Text → Text
emit zero n out = out
emit (suc fuel) n out =
    let rest = emit fuel (n / 10) ((b'0' + n % 10) ∷ out) in
    if ltb n 10 then (b'0' + n) ∷ out else rest

unfoldable pub show : ℕ → Text
unfolding emit
show n = emit (suc n) n []

-- The value of digits behind a number `n`.
unfoldable pub read_from : ℕ → Text → ℕ
read_from n [] = n
read_from n (c ∷ s) = read_from (n * 10 + (c - b'0')) s

unfoldable pub read : Text → ℕ
unfolding read_from
read s = read_from 0 s

-- `[1-9]\d*`
unfoldable pub is_positive_numeral : Text → Bool
is_positive_numeral [] = false
is_positive_numeral (c ∷ s) = leb b'1' c && leb c b'9' && all is_digit s

-- `0|[1-9]\d*`
unfoldable pub is_numeral : Text → Bool
unfolding is_positive_numeral
is_numeral [] = false
is_numeral (c ∷ s) = is_positive_numeral (c ∷ s) || (c == b'0' && is_empty s)

read-emit : (f n : ℕ) (out : Text) → n < f → read_from 0 (emit f n out) ≡ read_from n out
unfolding emit read_from
read-emit zero n out h = absurd (omega arith)
read-emit (suc f) n out h = elim (Bool-cases (ltb n 10)) [
  | inl small ↦ ground arith
  | inr large ↦ ground (arith, read-emit f (n / 10) ((b'0' + n % 10) ∷ out))
]

-- Reading a printed number gives the number.
pub read-show : (n : ℕ) → read (show n) ≡ n
unfolding read show
read-show n = ground (arith, read-emit (suc n) n [])

numeral-emit :
    (f n : ℕ) (out : Text)
    → 0 < n
    → n < f
    → all is_digit out ≡ true
    → is_positive_numeral (emit f n out) ≡ true
unfolding emit is_positive_numeral
numeral-emit zero n out p h d = absurd (omega arith)
numeral-emit (suc f) n out p h d = elim (Bool-cases (ltb n 10)) [
  | inl small ↦ ground arith
  | inr large ↦ ground (arith, numeral-emit f (n / 10) ((b'0' + n % 10) ∷ out))
]

-- A positive number is printed as `[1-9]\d*`.
pub is_positive_numeral-show : (n : ℕ) → 0 < n → is_positive_numeral (show n) ≡ true
unfolding show
is_positive_numeral-show n h = numeral-emit (suc n) n [] h (omega arith) refl
