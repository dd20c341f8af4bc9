-- ===== src/Validation/Policy.antt =====
-- `channel_workflows`, `profile` and `expected_results` of scripts/release_validation.py.
-- The policy is a dictionary; where its schema has a list, another value is a TypeError here.
use inverter_gateway.Prelude.{
  ℕ, zero, suc, Bool, true, false, not, Option, none, some, List, [], ◌∷◌, ◌++◌, ◌&&◌, ◌||◌,
  if◌then◌else◌, Text, codes, ◌=t◌, ◌==◌, all, leb, is_empty, is_digit, show, length,
}
use inverter_gateway.Prelude.Result.{Result, ok, err, require, ◌>>=◌, ◌>>◌}
use inverter_gateway.Json.{
  Json, Items, Fields, boolean, int, str, arr, obj, nil, cons, end, field, get, exactly, to_list,
}
use inverter_gateway.Plan.Patterns.{split_on}
use inverter_gateway.Plan.Declaration.{one_of, all_str}
use inverter_gateway.Plan.Declared.{present}

abbrev pub channels : List Text
channels = codes "nightly" ∷ codes "beta" ∷ codes "rc" ∷ codes "stable" ∷ []

-- `WORKFLOW` and the other workflows that cannot validate
abbrev pub reserved_workflows : List Text
reserved_workflows =
    codes "release-quality-gate.yml"
    ∷ codes "quality-gate.yml"
    ∷ codes "release-pipeline.yml"
    ∷ codes "release-build.yml"
    ∷ []

-- `[A-Za-z0-9_-]`
abbrev pub is_word : ℕ → Bool
is_word c =
    is_digit c || (leb b'A' c && leb c b'Z') || (leb b'a' c && leb c b'z') || c == b'_' || c == b'-'

abbrev pub stem_and_suffix : List Text → Bool
stem_and_suffix (stem ∷ suffix ∷ []) =
    not (is_empty stem) && all is_word stem && (suffix =t codes "yml" || suffix =t codes "yaml")
stem_and_suffix _ = false

-- `[A-Za-z0-9_-]+\.ya?ml`
unfoldable pub is_workflow_file : Text → Bool
is_workflow_file name = stem_and_suffix (split_on b'.' name)

unfoldable pub all_distinct : List Text → Bool
all_distinct [] = true
all_distinct (x ∷ xs) = not (one_of xs x) && all_distinct xs

-- `policy.get(key, default) == value`, of a text
abbrev pub text_or : Option Json → Text → Text → Bool
text_or none default value = default =t value
text_or (some (str s)) default value = s =t value
text_or (some _) default value = false

abbrev pub is_true : Option Json → Bool
is_true (some (boolean b)) = b
is_true _ = false

abbrev pub is_dict : Option Json → Bool
is_dict (some (obj fields)) = true
is_dict _ = false

abbrev pub beta_names : Option Json → Option (List Text)
beta_names (some (arr xs)) = all_str (to_list xs)
beta_names _ = none

unfoldable pub valid_names : Option (List Text) → Result (List Text)
valid_names none = err "Beta validation requires unique, nonempty local validator filenames"
valid_names (some names) = do
  require
      (not (leb (length names) 0)
        && all (λ name. is_workflow_file name && not (one_of reserved_workflows name)) names
        && all_distinct names)
      "Beta validation requires unique, nonempty local validator filenames"
  ok names

unfoldable pub opted_in : Fields → Json → Result (Option (List Text))
opted_in policy (obj config) = do
  require
      (exactly (codes "beta" ∷ []) config
        && text_or (get policy (codes "mode")) (codes "release") (codes "release")
        && text_or (get policy (codes "ci_execution")) (codes "github") (codes "github")
        && is_true (get policy (codes "single_entry_ci"))
        && is_dict (get policy (codes "versioning")))
      "channel_validation_workflows requires versioned single-entry releases and only beta"
  names ← valid_names (beta_names (get config (codes "beta")))
  ok (some names)
opted_in policy _ =
    err "channel_validation_workflows requires versioned single-entry releases and only beta"

abbrev pub from_config : Fields → Option Json → Result (Option (List Text))
from_config policy none = ok none
from_config policy (some config) = opted_in policy config

-- `channel_workflows`
unfoldable pub channel_workflows : Fields → Result (Option (List Text))
channel_workflows policy = from_config policy (get policy (codes "channel_validation_workflows"))

abbrev pub strings : List Text → Items
strings [] = nil
strings (s ∷ ss) = cons (str s) (strings ss)

abbrev pub is_beta : Text → Bool
is_beta channel = channel =t codes "beta"

unfoldable pub selected_workflows : Fields → Text → List Text → Result Json
selected_workflows policy channel beta =
    if is_beta channel
    then ok (arr (strings beta))
    else present (get policy (codes "validation_workflows")) "KeyError"

unfoldable pub described : Fields → Text → Option (List Text) → Result (Option Json)
described policy channel none = ok none
described policy channel (some beta) = do
  require (one_of channels channel) "Unknown release validation channel"
  workflows ← selected_workflows policy channel beta
  ok (
      some (
        obj (
          field (codes "schema") (int 1)
            (field (codes "channel") (str channel) (field (codes "workflows") workflows end)))))

-- `profile`
unfoldable pub profile : Fields → Text → Result (Option Json)
profile policy channel = do beta ← channel_workflows policy; described policy channel beta

abbrev pub success : Text
success = codes "success"

abbrev pub skipped : Text
skipped = codes "skipped"

-- `for index, _ in enumerate(items): results[f"{prefix}{index}"] = value`, from an index on
unfoldable pub numbered : Text → ℕ → ℕ → Text → List (Text × Text)
numbered prefix from zero value = []
numbered prefix from (suc n) value =
    (prefix ++ show from, value) ∷ numbered prefix (suc from) n value

abbrev pub list_items : Option Json → Result (List Json)
list_items (some (arr xs)) = ok (to_list xs)
list_items _ = err "TypeError"

abbrev pub dict_or_empty : Option Json → Result Fields
dict_or_empty none = ok end
dict_or_empty (some (obj fields)) = ok fields
dict_or_empty (some _) = err "AttributeError"

abbrev pub list_or_empty : Option Json → Result (List Json)
list_or_empty none = ok []
list_or_empty (some (arr xs)) = ok (to_list xs)
list_or_empty (some _) = err "TypeError"

abbrev pub report_name : Json → Option Json
report_name (obj report) = get report (codes "name")
report_name _ = none

abbrev pub name_text : Option Json → Result Text
name_text (some (str name)) = ok name
name_text _ = err "KeyError"

-- the entries of the coverage reports
unfoldable pub coverage_results : List Json → Text → Result (List (Text × Text))
coverage_results [] value = ok []
coverage_results (report ∷ reports) value = do
  name ← name_text (report_name report)
  rest ← coverage_results reports value
  ok ((codes "coverage-" ++ name, value) ∷ rest)

abbrev pub opt_in : Option (List Text) → Result (List Text)
opt_in none = err "Release validation needs an explicit policy and known channel"
opt_in (some names) = ok names

-- the results of the checks of every channel but beta, and of beta's
abbrev pub regular_result : Text → Text
regular_result channel = if is_beta channel then skipped else success

abbrev pub beta_result : Text → Text
beta_result channel = if is_beta channel then success else skipped

abbrev pub contract_results : List (Text × Text)
contract_results =
    (codes "scope", success)
    ∷ (codes "workflow-contracts", success)
    ∷ (codes "release-contracts", success)
    ∷ []

-- `expected_results`
unfoldable pub expected_results : Fields → Text → Result (List (Text × Text))
expected_results policy channel = do
  beta ← channel_workflows policy
  names ← opt_in beta
  require (one_of channels channel) "Release validation needs an explicit policy and known channel"
  workflows ← list_items (get policy (codes "validation_workflows"))
  coverage ← dict_or_empty (get policy (codes "coverage"))
  reports ← list_or_empty (get coverage (codes "reports"))
  covered ← coverage_results reports (regular_result channel)
  ok (
      contract_results
      ++ numbered (codes "check-") 0 (length workflows) (regular_result channel)
      ++ numbered (codes "beta-check-") 0 (length names) (beta_result channel)
      ++ covered)
