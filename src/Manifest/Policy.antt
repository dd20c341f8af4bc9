-- ===== src/Manifest/Policy.antt =====
-- `require_release_policy`, `validation_profile`, `validate_validation_manifest` and `validate_policy_snapshot` of
-- scripts/release_control.py.
pub mod Qualified
use inverter_gateway.Prelude.{
  ℕ, Bool, true, false, not, Option, none, some, List, [], ◌∷◌, ◌&&◌, if◌then◌else◌, Text, codes,
  ◌=t◌, all, is_empty, String,
}
use inverter_gateway.Prelude.Result.{Result, ok, err, require, ◌>>=◌, ◌>>◌}
use inverter_gateway.Json.{Json, Fields, str, arr, obj, get, has, to_list}
use inverter_gateway.Json.Texts.{text_is, value_or_none}
use inverter_gateway.Plan.Patterns.{is_sha, is_sha256}
use inverter_gateway.Validation.Policy.{channel_workflows, profile}
use inverter_gateway.Manifest.Python.{Python, is_schema_one, as_dict_or}
use inverter_gateway.Manifest.Fuzz.{require_fuzzing_policy, validate_fuzz_manifest}

-- `POLICY`
abbrev pub policy_path : Text
policy_path = codes ".release-policy.json"

abbrev pub policy_fields : Option Json → String → Result Fields
policy_fields (some (obj policy)) message = ok policy
policy_fields _ message = err message

-- `isinstance(d.get(key), str) and test(d[key])`
abbrev pub text_with : (Text → Bool) → Option Json → Bool
text_with test (some (str s)) = test s
text_with test _ = false

abbrev pub checked_workflows : Fields → Result (Unit {0})
checked_workflows policy =
    if has policy (codes "channel_validation_workflows")
    then (do workflows ← channel_workflows policy; ok tt)
    else ok tt

abbrev pub is_none_left : List Json → Bool
is_none_left [] = true
is_none_left (blocker ∷ blockers) = false

module _ (py : Python) where
  abbrev pub is_blocker : Json → Bool
  is_blocker (str item) = not (is_empty (py.strip item))
  is_blocker _ = false

  abbrev pub blocker_list : Option Json → Result (List Json)
  blocker_list none = ok []
  blocker_list (some (arr blockers)) = do
    require (all is_blocker (to_list blockers)) "Source policy blockers must be nonempty strings"
    ok (to_list blockers)
  blocker_list (some _) = err "Source policy blockers must be a list of nonempty strings"

  -- one round of the loop over the two kinds of blockers
  unfoldable pub check_blockers : Fields → Bool → Text → Result (Unit {0})
  check_blockers policy qualified key = do
    blockers ← blocker_list (get policy key)
    (if qualified
        then require (is_none_left blockers) "Source policy has unresolved blockers"
        else ok tt)

  -- `require_release_policy`
  unfoldable pub require_release_policy : Option Json → Text → Bool → Result (Unit {0})
  require_release_policy value repo qualified = do
    policy ← policy_fields value "Source release policy must be an object"
    require (text_with (λ name. py.lower name =t py.lower repo) (get policy (codes "repository")))
        "Source policy repository mismatch"
    require (text_is (get policy (codes "mode")) (codes "release"))
        "Source policy mode must be release"
    require_fuzzing_policy policy
    checked_workflows policy
    check_blockers policy qualified (codes "release_blockers")
    check_blockers policy qualified (codes "stable_blockers")

  -- `validate_policy_snapshot`
  unfoldable pub validate_policy_snapshot : Option Json → Text → Result (Unit {0})
  validate_policy_snapshot value repo = do
    snapshot ← policy_fields value "Manifest requires a versioned source policy snapshot"
    require
        (is_schema_one (get snapshot (codes "schema"))
          && text_is (get snapshot (codes "path")) policy_path)
        "Manifest requires a versioned source policy snapshot"
    require
        (text_with is_sha (get snapshot (codes "git_blob_sha"))
          && text_with is_sha256 (get snapshot (codes "sha256")))
        "Invalid source policy snapshot hashes"
    require_release_policy (get snapshot (codes "data")) repo true

-- `validation_profile`
unfoldable pub validation_profile : Fields → Text → Result (Option Json)
validation_profile policy channel =
    if has policy (codes "channel_validation_workflows") then profile policy channel else ok none

-- `manifest["source_policy"]["data"]`
unfoldable pub policy_of : Fields → Result Fields
policy_of manifest = do
  snapshot ← as_dict_or (get manifest (codes "source_policy"))
  as_dict_or (get snapshot (codes "data"))

-- `validate_validation_manifest`, with `manifest["channel"]`
unfoldable pub validate_validation_manifest : (Json → Text) → Fields → Text → Result (Unit {0})
validate_validation_manifest json_bytes manifest channel = do
  policy ← policy_of manifest
  expected ← validation_profile policy channel
  require
      (json_bytes (value_or_none (get manifest (codes "validation_profile")))
        =t json_bytes (value_or_none expected))
      "Manifest validation profile differs from its source policy/channel"
  validate_fuzz_manifest json_bytes manifest policy channel
