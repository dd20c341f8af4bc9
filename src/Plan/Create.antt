-- ===== src/Plan/Create.antt =====
-- `create_plan` and `validate_plan` of scripts/version_plan.py.
-- A plan dictionary is decoded while it is validated; `to_json` is the dictionary of a plan.
-- `datetime.strptime` and the SHA-256 of the policy's canonical JSON are the standard library's.
pub mod RoundTrip
pub mod Accepts
pub mod Sound
pub mod Dictionary
pub mod BuildNumber
use inverter_gateway.Prelude.{
  ℕ, Bool, true, false, Option, none, some, List, [], ◌∷◌, ◌++◌, ◌&&◌, ltb, leb, if◌then◌else◌,
  Text, codes, ◌=t◌, ◌==◌, String,
}
use inverter_gateway.Prelude.Result.{Result, ok, err, require, ◌>>=◌, ◌>>◌}
use inverter_gateway.Json.{Json, Fields, null, int, str, obj, field, end, get, exactly}
use inverter_gateway.Plan.Patterns.{is_sha, is_sha256}
use inverter_gateway.Plan.Identity.{
  Channel, channel_name, Sequence, absent, count, stamp, Identity, identity,
}
use inverter_gateway.Plan.Identity.Inversion.{sequence_json}
use inverter_gateway.Plan.Declaration.{pick}
use inverter_gateway.Plan.Declared.{present}
use inverter_gateway.Plan.Policy.{
  Promotion, promote_bytes, final_build, promotion_of, Config, validate_policy, same_promotion,
}
use inverter_gateway.Plan.Projection.{Plan, project_all}

abbrev pub max_build : ℕ
max_build = 2_100_000_000

unfoldable pub sha_value : String → Json → Result Text
unfolding is_sha
sha_value message (str s) = do require (is_sha s) message; ok s
sha_value message _ = err message

-- None, or a positive integer up to the maximum
unfoldable pub build_value : String → Json → Result (Option ℕ)
build_value message null = ok none
build_value message (int n) = do require (ltb 0 n && leb n max_build) message; ok (some n)
build_value message _ = err message

abbrev pub above : ℕ → Option ℕ → Bool
above floor none = true
above floor (some n) = ltb floor n

-- the plan literal of `create_plan`
unfoldable pub freeze : Config → Identity → Text → Option ℕ → Text → Plan
freeze config who sha number policy_digest = record {
  base_version = who.base;
  version = who.version;
  channel = who.channel;
  sequence = who.sequence;
  tag = codes "v" ++ who.version;
  source_sha = sha;
  build_number = number;
  policy_sha256 = policy_digest;
  promotion = config.promotion;
}

abbrev pub build_json : Option ℕ → Json
build_json none = null
build_json (some n) = int n

abbrev pub promotion_name : Promotion → Text
promotion_name promote_bytes = codes "promote-bytes"
promotion_name final_build = codes "final-build"

-- the dictionary that a plan is
unfoldable pub to_fields : Plan → Fields
to_fields plan = field (codes "schema_version") (int 1) (
    field (codes "base_version") (str plan.base_version) (
      field (codes "version") (str plan.version) (
        field (codes "channel") (str (channel_name plan.channel)) (
          field (codes "sequence") (sequence_json plan.sequence) (
            field (codes "tag") (str plan.tag) (
              field (codes "source_sha") (str plan.source_sha) (
                field (codes "build_number") (build_json plan.build_number) (
                  field (codes "policy_sha256") (str plan.policy_sha256)
                    (field (codes "promotion") (str (promotion_name plan.promotion)) end)))))))))

unfoldable pub to_json : Plan → Json
to_json plan = obj (to_fields plan)

abbrev pub plan_keys : List Text
plan_keys =
    codes "schema_version"
    ∷ codes "base_version"
    ∷ codes "version"
    ∷ codes "channel"
    ∷ codes "sequence"
    ∷ codes "tag"
    ∷ codes "source_sha"
    ∷ codes "build_number"
    ∷ codes "policy_sha256"
    ∷ codes "promotion"
    ∷ []

abbrev pub is_text : Text → Json → Bool
is_text s (str t) = t =t s
is_text s _ = false

abbrev pub is_one : Json → Bool
is_one (int n) = n == 1
is_one _ = false

unfoldable pub digest_value : Json → Result Text
unfolding is_sha256
digest_value (str s) = do require (is_sha256 s) "Invalid policy digest"; ok s
digest_value _ = err "Invalid policy digest"

-- `plan[key]`, after the keys were compared
abbrev pub at : Fields → String → Result Json
at fields key = present (get fields (codes key)) key

unfoldable pub bind_source : Plan → Option Text → Result (Unit {0})
bind_source plan none = ok tt
bind_source plan (some sha) = require (plan.source_sha =t sha) "Release plan source SHA mismatch"

module _ (valid_time : Text → Bool) where
  -- the checks of `validate_plan` that need no policy
  unfoldable pub plan_shape : Fields → Result Plan
  plan_shape fields = do
    require (exactly plan_keys fields) "Unexpected or missing release-plan fields"
    schema ← at fields "schema_version"
    require (is_one schema) "Unsupported release-plan schema"
    base ← at fields "base_version"
    channel ← at fields "channel"
    sequence ← at fields "sequence"
    who ← identity valid_time base channel sequence
    version ← at fields "version"
    tag ← at fields "tag"
    require (is_text who.version version && is_text (codes "v" ++ who.version) tag)
        "Release version/tag/sequence disagree"
    source ← at fields "source_sha"
    sha ← sha_value "Invalid plan source SHA" source
    digest ← at fields "policy_sha256"
    policy_digest ← digest_value digest
    profile ← at fields "promotion"
    promotion ← pick promotion_of "Invalid plan promotion profile" profile
    build ← at fields "build_number"
    number ← build_value "Invalid native build number" build
    ok (record {
      base_version = who.base;
      version = who.version;
      channel = who.channel;
      sequence = who.sequence;
      tag = codes "v" ++ who.version;
      source_sha = sha;
      build_number = number;
      policy_sha256 = policy_digest;
      promotion = promotion;
    })

module _ (policy_sha256 : Json → Text) where
  -- the binding of a plan to a policy, and to a source commit
  unfoldable pub bind_policy : Plan → Option Json → Result (Unit {0})
  bind_policy plan none = ok tt
  bind_policy plan (some policy) = do
    config ← validate_policy policy
    require (plan.policy_sha256 =t policy_sha256 policy) "Release plan policy digest mismatch"
    require (same_promotion plan.promotion config.promotion)
        "Release plan promotion policy mismatch"
    require (above config.floor plan.build_number)
        "Plan build number does not exceed the declared migration floor"
    project_all plan config.files

module _ (valid_time : Text → Bool) (policy_sha256 : Json → Text) where
  unfoldable pub create_plan : Json → Json → Json → Json → Json → Json → Result Plan
  create_plan base channel sequence source_sha policy build_number = do
    config ← validate_policy policy
    who ← identity valid_time base channel sequence
    sha ← sha_value "Source SHA must be a full lowercase commit SHA" source_sha
    number ←
        build_value "Build number must be a positive integer no greater than 2100000000"
          build_number
    require (above config.floor number) "Build number must exceed the declared migration floor"
    let plan = freeze config who sha number (policy_sha256 policy)
    project_all plan config.files
    ok plan

  unfoldable pub validate_plan : Json → Option Json → Option Text → Result Plan
  validate_plan (obj fields) policy source_sha = do
    plan ← plan_shape valid_time fields
    bind_policy policy_sha256 plan policy
    bind_source plan source_sha
    ok plan
  validate_plan _ policy source_sha = err "Release plan must be an object"
