-- ===== src/Json/Equality.antt =====
-- Python's `==` on JSON values: True equals 1, and objects are compared without order.
-- Floats are compared by their tokens.
use inverter_gateway.Prelude.{ℕ, suc, Bool, true, false, none, some, ◌&&◌, ◌=t◌, ◌==◌}
use inverter_gateway.Json.{
  Json, null, boolean, int, negative, float, str, arr, obj, Items, nil, cons, Fields, end, field,
  get,
}

abbrev pub count_fields : Fields → ℕ
count_fields end = 0
count_fields (field k v fs) = suc (count_fields fs)

abbrev of_boolean : Bool → ℕ
of_boolean true = 1
of_boolean false = 0

abbrev eq_nat : ℕ → Json → Bool
eq_nat n (int m) = n == m
eq_nat n (boolean b) = n == of_boolean b
eq_nat n _ = false

abbrev eq_negative : ℕ → Json → Bool
eq_negative n (negative m) = n == m
eq_negative n _ = false

unfoldable mutual
  unfolding ◌=t◌ get

  pub py_eq : Json → Json → Bool
  py_eq null null = true
  py_eq null _ = false
  py_eq (boolean b) j = eq_nat (of_boolean b) j
  py_eq (int n) j = eq_nat n j
  py_eq (negative n) j = eq_negative n j
  py_eq (float s) (float t) = s =t t
  py_eq (float s) _ = false
  py_eq (str s) (str t) = s =t t
  py_eq (str s) _ = false
  py_eq (arr xs) (arr ys) = eq_items xs ys
  py_eq (arr xs) _ = false
  py_eq (obj fs) (obj gs) = (count_fields fs == count_fields gs) && in_fields fs gs
  py_eq (obj fs) _ = false

  pub eq_items : Items → Items → Bool
  eq_items nil nil = true
  eq_items (cons x xs) (cons y ys) = py_eq x y && eq_items xs ys
  eq_items _ _ = false

  -- every field of the first object has an equal one in the second
  pub in_fields : Fields → Fields → Bool
  in_fields end gs = true
  in_fields (field k v fs) gs =
      elim (get gs k) [ none ↦ false | some w ↦ py_eq v w ] && in_fields fs gs
