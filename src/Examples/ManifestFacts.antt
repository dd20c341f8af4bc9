-- ===== src/Examples/ManifestFacts.antt =====
-- The manifest of a release candidate without versions, and the theorems of Manifest at it.
use inverter_gateway.Prelude.{
  ◌≤◌, ◌≡◌, ◌↔◌, refl, true, false, ◌=t◌, Text, codes, length, read, read_from, strip_prefix,
  is_positive_numeral, is_numeral, String,
}
use inverter_gateway.Prelude.Result.{ok}
use inverter_gateway.Json.{
  Json, Fields, int, str, obj, arr, nil, cons, end, field, get, keys, only, exactly,
}
use inverter_gateway.Json.Equality.{py_eq}
use inverter_gateway.Plan.Patterns.{is_base, is_sha, is_sha256, split_on}
use inverter_gateway.Runs.Gate.{workflow}
use inverter_gateway.Manifest.Python.{Python}
use inverter_gateway.Manifest.Assets.{
  is_asset_name, safe_name, check_assets, validate_manifest_assets,
}
use inverter_gateway.Manifest.Assets.Inventory.{IsInventory, validate_manifest_assets-IsInventory}
use inverter_gateway.Manifest.Fuzz.{require_fuzzing_policy, validate_fuzz_manifest}
use inverter_gateway.Manifest.Policy.{
  policy_path, check_blockers, require_release_policy, validate_policy_snapshot, validation_profile,
  policy_of, validate_validation_manifest,
}
use inverter_gateway.Manifest.Policy.Qualified.{IsText}
use inverter_gateway.Manifest.Accept.{
  is_rc_tag, check_plan, check_tag, check_parent, is_parent_tag, validate_release,
  validate_manifest, is_final,
}
use inverter_gateway.Manifest.Accept.Bound.{IsBound, validate_manifest-IsBound}
use inverter_gateway.Examples.Values.{any_time, sample_sha, sample_digest, fixed_digest}

-- Opening this opens the manifest checks, so that they run on concrete manifests.
unfoldable manifest_code : Unit {0}
unfolding ◌=t◌ read read_from strip_prefix is_positive_numeral is_numeral get keys only exactly
    py_eq is_base is_sha is_sha256 split_on is_asset_name safe_name check_assets
    validate_manifest_assets require_fuzzing_policy validate_fuzz_manifest check_blockers
    require_release_policy validate_policy_snapshot validation_profile policy_of
    validate_validation_manifest is_rc_tag check_plan check_tag validate_release validate_manifest
manifest_code = tt

abbrev text_field : String → String → Fields → Fields
text_field key value rest = field (codes key) (str (codes value)) rest

abbrev sample_asset : String → Json
sample_asset name = obj (
    text_field "name" name
      (field (codes "size") (int 12) (field (codes "sha256") (str sample_digest) end)))

abbrev release_policy : Fields
release_policy = text_field "repository" "o/r" (text_field "mode" "release" end)

abbrev policy_snapshot : Fields
policy_snapshot = field (codes "schema") (int 1) (
    field (codes "path") (str policy_path) (
      field (codes "git_blob_sha") (str sample_sha) (
        field (codes "sha256") (str sample_digest)
          (field (codes "data") (obj release_policy) end))))

abbrev candidate_manifest : Fields
candidate_manifest = field (codes "schema") (int 1) (
    text_field "repository" "o/r" (
      text_field "version" "1.2.3" (
        text_field "channel" "rc" (
          text_field "tag" "v1.2.3-rc.4" (
            field (codes "source_sha") (str sample_sha) (
              field (codes "workflow_path") (str workflow) (
                field (codes "run_id") (int 7) (
                  field (codes "run_attempt") (int 1) (
                    field (codes "source_policy") (obj policy_snapshot) (
                      field (codes "assets")
                        (arr (cons (sample_asset "a.tar.gz") (cons (sample_asset "b.zip") nil)))
                        end))))))))))

abbrev same : Text → Text
same text = text

abbrev pub one_document : Python
one_document = record {
  lower = same;
  casefold = same;
  strip = same;
  is_zero = λ token. false;
  is_decimal = λ c. true;
  loads = λ raw. ok (obj candidate_manifest);
  json_bytes = λ j. codes "json";
  sha256 = fixed_digest;
  valid_time = any_time;
}

validate_manifest-IsBound_example :
    (one_document.loads (codes "{}") ≡ ok (obj candidate_manifest))
    × (length (codes "{}") ≤ 2_000_000)
    × ((base : Text) × IsText candidate_manifest "version" base
        × (is_base base ≡ true)
        × IsBound one_document candidate_manifest
            (codes "v1.2.3-rc.4")
            (is_final one_document true candidate_manifest)
            base)
unfolding manifest_code
validate_manifest-IsBound_example =
    validate_manifest-IsBound one_document (codes "{}") (codes "o/r") (codes "v1.2.3-rc.4") true
      candidate_manifest refl

two_assets_pass : validate_manifest_assets same candidate_manifest ≡ ok tt
unfolding manifest_code
two_assets_pass = refl

validate_manifest_assets-IsInventory_example :
    (validate_manifest_assets same candidate_manifest ≡ ok tt) ↔ IsInventory same candidate_manifest
validate_manifest_assets-IsInventory_example =
    validate_manifest_assets-IsInventory same candidate_manifest

-- A final manifest whose run ID is the text of its parent's number passes the test for a new run.
abbrev own_parent : Fields
own_parent = text_field "tag" "v1.2.3-rc.4" (
    field (codes "manifest_sha256") (str sample_digest)
      (field (codes "source_sha") (str sample_sha) (field (codes "run_id") (int 7) end)))

abbrev final_manifest : Fields
final_manifest = text_field "run_id" "7" (field (codes "derived_from_rc") (obj own_parent) end)

abbrev final_policy : Fields
final_policy = field (codes "versioning") (obj (text_field "promotion" "final-build" end)) end

text_run_id_passes :
    check_parent one_document final_manifest final_policy sample_sha (codes "1.2.3") ≡ ok tt
unfolding manifest_code check_parent is_parent_tag
text_run_id_passes = refl
