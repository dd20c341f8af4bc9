-- ===== src/Examples/Values.antt =====
-- A policy with one version file, an RC plan under it, and what the standard library answers.
use inverter_gateway.Prelude.{
  Bool, true, some, ◌≡◌, refl, Text, codes, show, read, read_from, is_numeral, is_positive_numeral,
  strip_prefix, ◌=t◌, maximum,
}
use inverter_gateway.Json.{
  Json, int, str, arr, obj, cons, nil, field, end, get, keys, only, exactly,
}
use inverter_gateway.Plan.Patterns.{is_sha256, is_base, is_sha, is_nightly, split_on}
use inverter_gateway.Plan.Identity.{
  rc, count, identity, base_text, channel_value, sequence_value, stamp_value, channel_of,
}
use inverter_gateway.Plan.Policy.{
  promote_bytes, validate_policy, versioning, promotion_of, file_declarations,
  artifact_declarations, same_selector, same_promotion,
}
use inverter_gateway.Plan.Projection.{
  Plan, apple_build_text, apple_version, dev_number, package_version, pep440_package, project_all,
  projected_value, projections,
}
use inverter_gateway.Plan.Declaration.{ecosystem_of, field_value, kind_of, relative}
use inverter_gateway.Plan.Declared.{artifact_declaration, input_declaration, declared, declaration}
use inverter_gateway.Plan.Receipts.{strip_suffix, is_receipt_name, required_build_receipts}
use inverter_gateway.Plan.Create.{
  create_plan, validate_plan, to_json, to_fields, sha_value, build_value, freeze, plan_shape,
  digest_value, bind_policy, bind_source,
}

-- Opening this opens the functions on plans, so that they run on concrete values.
unfoldable pub plan_code : Unit {0}
unfolding show read read_from is_numeral is_positive_numeral strip_prefix ◌=t◌ maximum get keys only
    exactly is_base is_sha is_sha256 is_nightly split_on identity base_text channel_value
    sequence_value stamp_value channel_of ecosystem_of field_value kind_of relative
    artifact_declaration input_declaration declared declaration strip_suffix is_receipt_name
    required_build_receipts validate_policy versioning promotion_of file_declarations
    artifact_declarations same_selector same_promotion apple_build_text apple_version dev_number
    package_version pep440_package project_all projected_value projections create_plan validate_plan
    to_json to_fields sha_value build_value freeze plan_shape digest_value bind_policy bind_source
plan_code = tt

abbrev pub any_time : Text → Bool
any_time s = true

abbrev pub sample_sha : Text
sample_sha = codes "aaaaaaaaaaaaaaaaaaaaaaaaaaaaaaaaaaaaaaaa"

abbrev pub sample_digest : Text
sample_digest = codes "0123456789abcdef0123456789abcdef0123456789abcdef0123456789abcdef"

abbrev pub fixed_digest : Json → Text
fixed_digest j = sample_digest

pub fixed_digest-hex : (j : Json) → is_sha256 (fixed_digest j) ≡ true
unfolding is_sha256
fixed_digest-hex j = refl

abbrev pub sample_policy : Json
sample_policy = obj (
    field (codes "versioning")
      (obj (
        field (codes "schema") (int 1) (
          field (codes "promotion") (str (codes "promote-bytes")) (
            field (codes "files")
              (arr (
                cons
                  (obj (
                    field (codes "path") (str (codes "VERSION"))
                      (field (codes "format") (str (codes "text")) end)))
                  nil))
              (field (codes "build_number_floor") (int 10) end)))))
      end)

abbrev pub sample_plan : Plan
sample_plan = record {
  base_version = codes "1.2.0";
  version = codes "1.2.0-rc.2";
  channel = rc;
  sequence = count 2;
  tag = codes "v1.2.0-rc.2";
  source_sha = sample_sha;
  build_number = some 11;
  policy_sha256 = sample_digest;
  promotion = promote_bytes;
}
