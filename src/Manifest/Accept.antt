-- ===== src/Manifest/Accept.antt =====
-- `_validate_manifest_plan` and `validate_manifest` of scripts/release_control.py.
pub mod Kinds
pub mod Bound
use inverter_gateway.Prelude.{
  ℕ, Bool, true, false, not, Option, none, some, List, [], ◌∷◌, ◌++◌, ◌&&◌, if◌then◌else◌, Text,
  codes, ◌=t◌, ◌==◌, leb, all, length, strip_prefix, is_positive_numeral, String,
}
use inverter_gateway.Prelude.Result.{Result, ok, err, require, ◌>>=◌, ◌>>◌}
use inverter_gateway.Json.{Json, Fields, int, str, obj, get, exactly}
use inverter_gateway.Json.Equality.{py_eq}
use inverter_gateway.Json.Texts.{text_is, value_or_none}
use inverter_gateway.Plan.Patterns.{is_base, is_sha, is_sha256}
use inverter_gateway.Plan.Identity.{channel_name}
use inverter_gateway.Plan.Create.{validate_plan}
use inverter_gateway.Plan.Projection.{Plan}
use inverter_gateway.Runs.Gate.{workflow}
use inverter_gateway.Runs.Provenance.{positive}
use inverter_gateway.Manifest.Python.{Python, is_schema_one, is_truthy}
use inverter_gateway.Manifest.Assets.{validate_manifest_assets}
use inverter_gateway.Manifest.Policy.{
  text_with, policy_fields, policy_of, validate_policy_snapshot, validate_validation_manifest,
}

abbrev pub numeral_with : (ℕ → Bool) → Option Text → Bool
numeral_with digit none = false
numeral_with digit (some []) = false
numeral_with digit (some (c ∷ s)) = leb b'1' c && leb c b'9' && all digit s

abbrev pub rc_number : Text → Text → Option Text
rc_number base tag = strip_prefix (codes "v" ++ (base ++ codes "-rc.")) tag

abbrev pub is_numeral_of : Option Text → Bool
is_numeral_of none = false
is_numeral_of (some s) = is_positive_numeral s

-- `v{base}-rc\.[1-9]\d*`, with `re.ASCII`
unfoldable pub is_rc_tag : Text → Text → Bool
is_rc_tag base tag = is_numeral_of (rc_number base tag)

abbrev pub text_value : Option Json → String → Result Text
text_value (some (str s)) message = ok s
text_value _ message = err message

abbrev pub parent_keys : List Text
parent_keys = codes "tag" ∷ codes "manifest_sha256" ∷ codes "source_sha" ∷ codes "run_id" ∷ []

-- `versioning.get("promotion") == "final-build"`
abbrev pub is_final_build : Option Json → Bool
is_final_build (some (obj versioning)) =
    text_is (get versioning (codes "promotion")) (codes "final-build")
is_final_build _ = false

module _ (py : Python) where
  -- `_validate_manifest_plan`
  unfoldable pub validate_manifest_plan : Fields → Fields → Text → Text → Result (Unit {0})
  validate_manifest_plan manifest policy source base = do
    plan ←
        validate_plan py.valid_time py.sha256 (value_or_none (get manifest (codes "version_plan")))
          (some (obj policy)) (some source)
    require
        (text_is (get manifest (codes "tag")) plan.tag
          && text_is (get manifest (codes "channel")) (channel_name plan.channel)
          && plan.base_version =t base
          && text_is (get manifest (codes "plan_sha256"))
              (py.sha256 (value_or_none (get manifest (codes "version_plan")))))
        "Manifest differs from the frozen version plan"

  -- the part under `if versioning:`
  unfoldable pub check_plan : Fields → Fields → Text → Text → Result (Unit {0})
  check_plan manifest policy source base =
      if is_truthy py (get policy (codes "versioning"))
      then validate_manifest_plan manifest policy source base
      else ok tt

  -- `v{base}-rc\.[1-9]\d*`, without `re.ASCII`
  unfoldable pub is_parent_tag : Text → Text → Bool
  is_parent_tag base tag = numeral_with py.is_decimal (rc_number base tag)

  -- the part under the last `if final:`
  unfoldable pub check_parent : Fields → Fields → Text → Text → Result (Unit {0})
  check_parent manifest policy source base = do
    require
        (is_truthy py (get policy (codes "versioning"))
          && is_final_build (get policy (codes "versioning")))
        "Final package policy is missing"
    parent ←
        policy_fields (get manifest (codes "derived_from_rc"))
          "Final manifest needs accepted RC provenance"
    require (exactly parent_keys parent) "Final manifest needs accepted RC provenance"
    require
        (text_with (is_parent_tag base) (get parent (codes "tag"))
          && text_is (get parent (codes "source_sha")) source
          && text_with is_sha256 (get parent (codes "manifest_sha256")))
        "Invalid final RC provenance"
    run ← positive (get parent (codes "run_id")) "Invalid parent RC run ID"
    require (not (py_eq (int run) (value_or_none (get manifest (codes "run_id")))))
        "Final build must use a new run"

  -- the checks of the channel and the tag
  unfoldable pub check_tag : Fields → Bool → Text → Text → Result (Unit {0})
  check_tag manifest final base rc_tag =
      if final
      then require (text_is (get manifest (codes "tag")) rc_tag && rc_tag =t codes "v" ++ base)
          "Final tag/version mismatch"
      else (do
        require (text_is (get manifest (codes "channel")) (codes "rc"))
            "Only release candidates can be promoted"
        require (text_is (get manifest (codes "tag")) rc_tag && is_rc_tag base rc_tag)
            "Manifest RC tag/version mismatch")

  abbrev pub is_final : Bool → Fields → Bool
  is_final allow_final manifest =
      allow_final && text_is (get manifest (codes "channel")) (codes "stable")

  -- `manifest["channel"]`, after `check_tag`
  abbrev pub channel_text : Bool → Text
  channel_text final = if final then codes "stable" else codes "rc"

  -- the checks after `version(base_version)`
  unfoldable pub validate_release : Fields → Text → Text → Bool → Text → Result (Unit {0})
  validate_release manifest repo rc_tag final base = do
    check_tag manifest final base rc_tag
    source ← text_value (get manifest (codes "source_sha")) "Invalid manifest source SHA"
    require (is_sha source) "Invalid manifest source SHA"
    require (text_is (get manifest (codes "workflow_path")) workflow)
        "Manifest workflow path mismatch"
    run ← positive (get manifest (codes "run_id")) "Invalid manifest run ID"
    attempt ← positive (get manifest (codes "run_attempt")) "Invalid manifest run attempt"
    validate_policy_snapshot py (get manifest (codes "source_policy")) repo
    validate_validation_manifest py.json_bytes manifest (channel_text final)
    policy ← policy_of manifest
    check_plan manifest policy source base
    (if final then check_parent manifest policy source base else ok tt)
    validate_manifest_assets py.casefold manifest

  -- `validate_manifest`
  unfoldable pub validate_manifest : Text → Text → Text → Bool → Result Fields
  validate_manifest raw repo rc_tag allow_final = do
    require (leb (length raw) 2_000_000) "Manifest is unreasonably large"
    value ← py.loads raw
    manifest ← policy_fields (some value) "Unsupported manifest schema"
    require (is_schema_one (get manifest (codes "schema"))) "Unsupported manifest schema"
    require (text_with (λ name. py.lower name =t py.lower repo) (get manifest (codes "repository")))
        "Manifest repository mismatch"
    base ← text_value (get manifest (codes "version")) "Missing manifest version"
    require (is_base base) "Version must be strict X.Y.Z without leading zeros"
    validate_release manifest repo rc_tag (is_final allow_final manifest) base
    ok manifest
