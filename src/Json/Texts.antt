-- ===== src/Json/Texts.antt =====
-- Comparisons of what `dict.get` gives with a text or a number, and with None.
use inverter_gateway.Prelude.{ℕ, Bool, true, false, Option, none, some, ◌≡◌, ap, Text, ◌=t◌, =t→eq}
use inverter_gateway.Json.{Json, null, int, str}
use inverter_gateway.Json.Equality.{py_eq}

-- `d.get(key) == text`
abbrev pub text_is : Option Json → Text → Bool
text_is (some (str s)) t = s =t t
text_is _ t = false

-- `d.get(key) == number`
abbrev pub number_is : Option Json → ℕ → Bool
number_is none n = false
number_is (some j) n = py_eq j (int n)

-- `d.get(key) is None`
abbrev pub is_none : Option Json → Bool
is_none none = true
is_none (some null) = true
is_none (some _) = false

-- the value that a comparison sees
abbrev pub value_or_none : Option Json → Json
value_or_none none = null
value_or_none (some j) = j

pub text_is-eq : (o : Option Json) (t : Text) → text_is o t ≡ true → o ≡ some (str t)
text_is-eq (some (str s)) t h = ap (λ x. some (str x)) (=t→eq s t h)
text_is-eq none t h = absurd (cc)
text_is-eq (some _) t h = absurd (cc)
