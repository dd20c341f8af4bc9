-- ===== src/Json.antt =====
-- The values that `json.loads` makes (release_control.parse_json) and the tests that the release
-- scripts put to them: `isinstance`, `type(x) is int`, `dict.get`, `key in dict`.
-- An integer is `int n` or `negative n`, which is -(n + 1); a float keeps its token only.
pub mod Equality
pub mod Texts
use inverter_gateway.Prelude.{
  ℕ, Bool, true, false, Option, none, some, List, [], ◌∷◌, ◌&&◌, ◌||◌, if◌then◌else◌, Text, ◌=t◌,
  any, all,
}

mutual
  pub data Json : Type 0 where
    null : Json
    boolean : Bool → Json
    int : ℕ → Json
    negative : ℕ → Json
    float : Text → Json
    str : Text → Json
    arr : Items → Json
    obj : Fields → Json

  pub data Items : Type 0 where
    nil : Items
    cons : Json → Items → Items

  pub data Fields : Type 0 where
    end : Fields
    field : Text → Json → Fields → Fields

-- `d.get(key)`, and whether the key is there
unfoldable pub get : Fields → Text → Option Json
unfolding ◌=t◌
get end k = none
get (field j v fs) k = if j =t k then some v else get fs k

abbrev pub has : Fields → Text → Bool
has fs k = elim (get fs k) [ none ↦ false | some v ↦ true ]

unfoldable pub keys : Fields → List Text
keys end = []
keys (field k v fs) = k ∷ keys fs

-- `set(d) <= names`
unfoldable pub only : List Text → Fields → Bool
unfolding keys ◌=t◌
only names fs = all (λ k. any (λ n. n =t k) names) (keys fs)

-- `set(d) == names`
unfoldable pub exactly : List Text → Fields → Bool
unfolding only get
exactly names fs = only names fs && all (has fs) names

abbrev pub as_str : Json → Option Text
as_str (str s) = some s
as_str _ = none

-- `type(x) is int and 0 <= x`
abbrev pub as_nat : Json → Option ℕ
as_nat (int n) = some n
as_nat _ = none

abbrev pub as_obj : Json → Option Fields
as_obj (obj fs) = some fs
as_obj _ = none

abbrev pub to_list : Items → List Json
to_list nil = []
to_list (cons x xs) = x ∷ to_list xs

abbrev pub as_list : Json → Option (List Json)
as_list (arr xs) = some (to_list xs)
as_list _ = none
