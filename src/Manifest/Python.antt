-- ===== src/Manifest/Python.antt =====
-- What the manifest checks of scripts/release_control.py use of Python: texts, JSON, truth values.
use inverter_gateway.Prelude.{ℕ, Bool, true, false, not, Option, none, some, Text, is_empty, ◌==◌}
use inverter_gateway.Prelude.Result.{Result, ok, err}
use inverter_gateway.Json.{Json, nil, Fields, end, null, boolean, int, float, str, arr, obj}

pub record Python : Type 0 where
  -- `str.lower`, `str.casefold`, `str.strip`
  pub lower : Text → Text
  pub casefold : Text → Text
  pub strip : Text → Text
  -- whether the token of a float is a zero
  pub is_zero : Text → Bool
  -- the digits that `\d` matches without `re.ASCII`
  pub is_decimal : ℕ → Bool
  -- `json.loads` in parse_json, the bytes of json_bytes, and their SHA-256
  pub loads : Text → Result Json
  pub json_bytes : Json → Text
  pub sha256 : Json → Text
  -- `datetime.strptime` of a nightly's time
  pub valid_time : Text → Bool

abbrev pub as_dict_or : Option Json → Result Fields
as_dict_or (some (obj fields)) = ok fields
as_dict_or (some _) = err "TypeError"
as_dict_or none = err "KeyError"

abbrev pub is_schema_one : Option Json → Bool
is_schema_one (some (int n)) = n == 1
is_schema_one _ = false

-- The truth value of a value, or of None where the key is missing.
abbrev pub is_truthy : Python → Option Json → Bool
is_truthy py none = false
is_truthy py (some null) = false
is_truthy py (some (boolean b)) = b
is_truthy py (some (int n)) = not (n == 0)
is_truthy py (some (float token)) = not (py.is_zero token)
is_truthy py (some (str s)) = not (is_empty s)
is_truthy py (some (arr nil)) = false
is_truthy py (some (obj end)) = false
is_truthy py (some _) = true
