-- ===== src/Examples/Plans.antt =====
-- The theorems on identities, plans and projections, at concrete releases.
use inverter_gateway.Prelude.{◌<◌, ◌^◌, some, ◌≡◌, refl, inl, arith, codes}
use inverter_gateway.Prelude.Result.{ok}
use inverter_gateway.Json.{int, str}
use inverter_gateway.Plan.Identity.{Identity, rc, count, identity}
use inverter_gateway.Plan.Create.{create_plan, validate_plan, to_fields, to_json}
use inverter_gateway.Plan.Create.Accepts.{validate_plan-create_plan}
use inverter_gateway.Plan.Create.RoundTrip.{IsFrozen}
use inverter_gateway.Plan.Create.Dictionary.{IsDictionaryOf}
use inverter_gateway.Plan.Create.Sound.{validate_plan-IsDictionaryOf}
use inverter_gateway.Plan.Identity.Injective.{version-injective}
use inverter_gateway.Plan.Projection.{apple_version, dev_number}
use inverter_gateway.Plan.Projection.Order.{AppleLt, apple_version_mono, dev_number_mono}
use inverter_gateway.Examples.Values.{
  any_time, sample_sha, fixed_digest, fixed_digest-hex, sample_policy, sample_plan, plan_code,
}

-- A created RC plan.
pub sample_created :
    create_plan any_time fixed_digest
      (str (codes "1.2.0"))
      (str (codes "rc"))
      (int 2)
      (str sample_sha)
      sample_policy
      (int 11)
    ≡ ok sample_plan
unfolding plan_code
sample_created = refl

validate_plan-create_plan_example :
    validate_plan any_time fixed_digest (to_json sample_plan) (some sample_policy) (some sample_sha)
    ≡ ok sample_plan
validate_plan-create_plan_example =
    validate_plan-create_plan any_time fixed_digest fixed_digest-hex (str (codes "1.2.0"))
      (str (codes "rc")) (int 2) sample_policy (int 11) sample_sha sample_plan sample_created

validate_plan-IsDictionaryOf_example :
    IsDictionaryOf sample_plan (to_fields sample_plan) × IsFrozen any_time sample_plan
validate_plan-IsDictionaryOf_example =
    validate_plan-IsDictionaryOf any_time fixed_digest (to_fields sample_plan) (some sample_policy)
      (some sample_sha) sample_plan (unfold to_json in validate_plan-create_plan_example)

abbrev rc_identity : Identity
rc_identity = record {
  base = codes "1.2.0";
  channel = rc;
  sequence = count 2;
  version = codes "1.2.0-rc.2";
}

rc_identified : identity any_time (str (codes "1.2.0")) (str (codes "rc")) (int 2) ≡ ok rc_identity
unfolding plan_code
rc_identified = refl

version-injective_example : rc_identity ≡ rc_identity
version-injective_example =
    version-injective any_time (str (codes "1.2.0")) (str (codes "rc")) (int 2)
      (str (codes "1.2.0")) (str (codes "rc")) (int 2) rc_identity rc_identity rc_identified
      rc_identified refl

apple_version_mono_example :
    AppleLt (apple_version 10000) (apple_version 10001)
    × ((apple_version 10001).minor < 100)
    × ((apple_version 10001).patch < 100)
apple_version_mono_example = apple_version_mono 10000 10001 (omega arith) (omega arith)

dev_9 : dev_number 5 9 ≡ ok 5_000_009
unfolding dev_number
dev_9 = refl

dev_10 : dev_number 6 1 ≡ ok 6_000_001
unfolding dev_number
dev_10 = refl

dev_number_mono_example : (5_000_009 < 6_000_001) × (6_000_001 < 2 ^ 64)
dev_number_mono_example =
    dev_number_mono 5 9 6 1 5_000_009 6_000_001 dev_9 dev_10 (inl (omega arith))
