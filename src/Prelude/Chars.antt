-- ===== src/Prelude/Chars.antt =====
-- Text as its list of code points, with equality, prefixes and character classes.
use Prim.Native.Char.{code}
use Prim.Native.String.{String}
use Prim.Native.Nat.{ℕ}
use mathlib.Core.Path.{◌≡◌, refl}
use mathlib.Core.Bool.{Bool, true, false, ◌&&◌, ◌||◌}
use mathlib.Core.List.{List, [], ◌∷◌, ◌++◌}
use mathlib.Core.Option.{Option, none, some}
use native.Mathlib.Omega.{arith}
use inverter_gateway.Prelude.Tests.{leb, ◌==◌, if◌then◌else◌}

abbrev pub Text : Type 0
Text = List ℕ

-- The code points of a literal.
abbrev pub codes : String → Text
codes String.[] = []
codes (String.◌∷◌ c s) = code c ∷ codes s

abbrev pub is_empty : Text → Bool
is_empty [] = true
is_empty (c ∷ s) = false

infix 50 ◌=t◌
unfoldable pub ◌=t◌ : Text → Text → Bool
[] =t [] = true
[] =t (y ∷ ys) = false
(x ∷ xs) =t [] = false
(x ∷ xs) =t (y ∷ ys) = (x == y) && (xs =t ys)

pub =t-self : (s : Text) → (s =t s) ≡ true
unfolding ◌=t◌
=t-self [] = refl
=t-self (x ∷ s) = ground (arith, =t-self s)

pub =t→eq : (s t : Text) → (s =t t) ≡ true → s ≡ t
unfolding ◌=t◌
=t→eq [] [] h = refl
=t→eq [] (y ∷ t) h = ground arith
=t→eq (x ∷ s) [] h = ground arith
=t→eq (x ∷ s) (y ∷ t) h = ground (arith, =t→eq s t)

-- `c` is an ASCII digit, as `\d` under `re.ASCII`.
abbrev pub is_digit : ℕ → Bool
is_digit c = leb b'0' c && leb c b'9'

-- `c` is in `[0-9a-f]`.
abbrev pub is_hex : ℕ → Bool
is_hex c = is_digit c || (leb b'a' c && leb c b'f')

-- `text.startswith(prefix)`, with what follows the prefix.
unfoldable pub strip_prefix : Text → Text → Option Text
strip_prefix [] t = some t
strip_prefix (p ∷ ps) [] = none
strip_prefix (p ∷ ps) (c ∷ t) = if p == c then strip_prefix ps t else none

abbrev pub starts_with : Text → Text → Bool
starts_with prefix s = elim (strip_prefix prefix s) [ none ↦ false | some rest ↦ true ]

-- Some rest of the text passes the test, as `re.search` tries each position.
unfoldable pub at_some : (Text → Bool) → Text → Bool
at_some test [] = test []
at_some test (c ∷ s) = test (c ∷ s) || at_some test s

abbrev pub contains : Text → Text → Bool
contains mark = at_some (starts_with mark)

pub strip_prefix-append : (p t : Text) → strip_prefix p (p ++ t) ≡ some t
unfolding strip_prefix
strip_prefix-append [] t = refl
strip_prefix-append (c ∷ p) t = ground (arith, strip_prefix-append p t)

pub strip_prefix-eq : (p t r : Text) → strip_prefix p t ≡ some r → t ≡ p ++ r
unfolding strip_prefix
strip_prefix-eq [] t r h = ground arith
strip_prefix-eq (c ∷ p) [] r h = ground arith
strip_prefix-eq (c ∷ p) (d ∷ t) r h = ground (arith, strip_prefix-eq p t r)
