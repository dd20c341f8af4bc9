-- ===== src/Manifest/Fuzz.antt =====
-- `configuration`, `profile` and `check_run_jobs` of scripts/release_fuzz.py, and the functions of
-- scripts/release_control.py that call them.
use inverter_gateway.Prelude.{
  Bool, true, false, not, Option, none, some, List, [], ◌∷◌, ◌&&◌, if◌then◌else◌, Text, codes, ◌=t◌,
  any, keep, String,
}
use inverter_gateway.Prelude.Result.{Result, ok, err, require, ◌>>=◌, ◌>>◌}
use inverter_gateway.Json.{
  Json, Fields, nil, cons, null, int, str, arr, obj, end, field, get, has, exactly, to_list,
}
use inverter_gateway.Json.Equality.{py_eq}
use inverter_gateway.Json.Texts.{text_is, value_or_none}
use inverter_gateway.Plan.Patterns.{is_sha}
use inverter_gateway.Plan.Declared.{present}
use inverter_gateway.Validation.Policy.{text_or, is_dict}
use inverter_gateway.Validation.Jobs.{one_succeeded}

abbrev pub is_ref : Option Json → Bool
is_ref (some (str s)) = is_sha s
is_ref _ = false

abbrev pub fuzzing_failure : String
fuzzing_failure = "Fuzzing requires public versioned hosted releases and a pinned toolkit_ref"

abbrev pub fuzzing_value : Fields → Option Json → Result (Option Fields)
fuzzing_value policy none = ok none
fuzzing_value policy (some null) = ok none
fuzzing_value policy (some (obj value)) = do
  require
      (exactly (codes "toolkit_ref" ∷ []) value
        && is_ref (get value (codes "toolkit_ref"))
        && text_or (get policy (codes "visibility")) (codes "public") (codes "public")
        && text_is (get policy (codes "mode")) (codes "release")
        && text_or (get policy (codes "ci_execution")) (codes "github") (codes "github")
        && is_dict (get policy (codes "versioning")))
      fuzzing_failure
  ok (some value)
fuzzing_value policy (some _) = err fuzzing_failure

-- `configuration`
unfoldable pub configuration : Fields → Result (Option Fields)
configuration policy = fuzzing_value policy (get policy (codes "fuzzing"))

abbrev pub fuzz_manifest : Text
fuzz_manifest = codes ".github/fuzz.json"

abbrev pub profile_of : Text → Option Fields → Option Json
profile_of channel none = none
profile_of channel (some config) =
    if channel =t codes "rc"
    then some (
        obj (
          field (codes "schema") (int 1) (
            field (codes "channel") (str (codes "rc"))
              (field (codes "manifest") (str fuzz_manifest) config))))
    else none

-- `profile` of scripts/release_fuzz.py
unfoldable pub fuzz_profile : Fields → Text → Result (Option Json)
fuzz_profile policy channel = do config ← configuration policy; ok (profile_of channel config)

abbrev pub is_fuzz_job : Fields → Bool
is_fuzz_job job = text_is (get job (codes "name")) (codes "fuzz / RC fuzzing")

-- `check_run_jobs` of scripts/release_fuzz.py
unfoldable pub check_fuzz_jobs : List Fields → Text → Text → Result (Unit {0})
check_fuzz_jobs jobs channel sha =
    if channel =t codes "rc"
    then require (one_succeeded sha (keep is_fuzz_job jobs))
        "RC requires one successful fuzz job at the exact source SHA"
    else require
        (not (
          any (λ job. not (text_is (get job (codes "conclusion")) (codes "skipped")))
            (keep is_fuzz_job jobs)))
        "Fuzzing must not run outside RC"

-- `require_fuzzing_policy`
unfoldable pub require_fuzzing_policy : Fields → Result (Unit {0})
require_fuzzing_policy policy =
    if not (has policy (codes "fuzzing")) then ok tt else (do config ← configuration policy; ok tt)

-- a key of a dictionary
abbrev pub is_hashable : Json → Bool
is_hashable (arr items) = false
is_hashable (obj fields) = false
is_hashable _ = true

abbrev pub named_item : Json → Result (Json × Fields)
named_item (obj asset) = do
  name ← present (get asset (codes "name")) "KeyError"
  require (is_hashable name) "TypeError"
  ok (name, asset)
named_item _ = err "TypeError"

-- `{item["name"]: item for item in assets}`, the last one first
unfoldable pub by_name : List (Json × Fields) → List Json → Result (List (Json × Fields))
by_name found [] = ok found
by_name found (item ∷ items) = do entry ← named_item item; by_name (entry ∷ found) items

abbrev pub item_list : Option Json → Result (List Json)
item_list (some (arr items)) = ok (to_list items)
item_list _ = err "KeyError"

-- `assets.get(name, {})`
unfoldable pub named : List (Json × Fields) → Text → Option Fields
named [] name = none
named ((key, asset) ∷ assets) name =
    let rest = named assets name in if text_is (some key) name then some asset else rest

abbrev pub receipt_name : Text
receipt_name = codes "release-inputs-fuzz.json"

abbrev pub receipts_of : Fields → Json
receipts_of receipt = arr (
    cons
      (obj (
        field (codes "name") (str receipt_name)
          (field (codes "sha256") (value_or_none (get receipt (codes "sha256"))) end)))
      nil)

abbrev pub has_receipts : Fields → Option Fields → Option Fields → Bool
has_receipts manifest (some report) (some receipt) =
    py_eq (value_or_none (get manifest (codes "validation_receipts"))) (receipts_of receipt)
has_receipts manifest _ _ = false

-- the part for a release candidate
unfoldable pub check_fuzz_evidence : Fields → Result (Unit {0})
check_fuzz_evidence manifest = do
  items ← item_list (get manifest (codes "assets"))
  assets ← by_name [] items
  require
      (has_receipts manifest (named assets (codes "fuzz-report.json")) (named assets receipt_name))
      "RC fuzz validation evidence is absent from the immutable asset inventory"

module _ (json_bytes : Json → Text) where
  -- `validate_fuzz_manifest`
  unfoldable pub validate_fuzz_manifest : Fields → Fields → Text → Result (Unit {0})
  validate_fuzz_manifest manifest policy channel =
      if not (has policy (codes "fuzzing")) then ok tt else (do
        expected ← fuzz_profile policy channel
        require
            (json_bytes (value_or_none (get manifest (codes "fuzzing_profile")))
              =t json_bytes (value_or_none expected))
            "Manifest fuzzing profile differs from its source policy/channel"
        (if channel =t codes "rc" then check_fuzz_evidence manifest else ok tt))
