-- ===== src/Plan/Projection.antt =====
-- The frozen plan record, `projections` and `projected_value` of scripts/version_plan.py.
pub mod Order
use inverter_gateway.Prelude.{
  ℕ, ◌+◌, ◌-◌, ◌*◌, ◌/◌, ◌%◌, ◌^◌, Bool, true, false, Option, none, some, List, [], ◌∷◌, ◌++◌, ◌&&◌,
  ltb, leb, if◌then◌else◌, Text, codes, show, read, is_empty,
}
use inverter_gateway.Prelude.Result.{Result, ok, err, require, ◌>>=◌, ◌>>◌}
use inverter_gateway.Plan.Patterns.{split_on}
use inverter_gateway.Plan.Identity.{
  Channel, nightly, beta, rc, stable, Sequence, absent, count, stamp, sequence_text,
}
use inverter_gateway.Plan.Declaration.{
  Declaration, Kind, base, full, packaged, build, apple_build, Ecosystem, semver, pep440,
}
use inverter_gateway.Plan.Policy.{Promotion, promote_bytes, final_build}

-- The ten fields of a release plan; `schema_version` is always 1.
pub record Plan : Type 0 where
  pub base_version : Text
  pub version : Text
  pub channel : Channel
  pub sequence : Sequence
  pub tag : Text
  pub source_sha : Text
  pub build_number : Option ℕ
  pub policy_sha256 : Text
  pub promotion : Promotion

-- `int(run) * 1_000_000 + int(attempt)`, refused where it would leave PEP 440's u64
unfoldable pub dev_number : ℕ → ℕ → Result ℕ
dev_number run attempt = do
  require (ltb attempt 1_000_000 && leb (run * 1_000_000 + attempt) (2 ^ 64 - 2))
      "Nightly run or attempt is too large for PEP 440 projection"
  ok (run * 1_000_000 + attempt)

abbrev pub dev_package : Text → List Text → Result Text
dev_package b (time ∷ run ∷ attempt ∷ []) = do
  number ← dev_number (read run) (read attempt)
  ok (b ++ codes ".dev" ++ show number)
dev_package b _ = err "not enough values to unpack"

-- the PEP 440 package version of a plan
unfoldable pub pep440_package : Text → Text → Channel → Sequence → Result Text
pep440_package b version beta s = ok (b ++ codes "b" ++ sequence_text s)
pep440_package b version rc s = ok (b ++ codes "rc" ++ sequence_text s)
pep440_package b version nightly s = dev_package b (split_on b'.' (sequence_text s))
pep440_package b version stable s = ok version

-- a promote-bytes RC carries its stable version already
abbrev pub promotes : Channel → Promotion → Bool
promotes rc promote_bytes = true
promotes _ _ = false

abbrev pub by_ecosystem : Ecosystem → Plan → Result Text
by_ecosystem semver plan = ok plan.version
by_ecosystem pep440 plan = pep440_package plan.base_version plan.version plan.channel plan.sequence

unfoldable pub package_version : Plan → Ecosystem → Result Text
package_version plan ecosystem =
    if promotes plan.channel plan.promotion
    then ok plan.base_version
    else by_ecosystem ecosystem plan

-- the three numbers of an Apple build version, for the build number less one
pub record AppleVersion : Type 0 where
  pub major : ℕ
  pub minor : ℕ
  pub patch : ℕ

unfoldable pub apple_version : ℕ → AppleVersion
apple_version number =
    let n = number - 1 in record { major = n / 10000 + 1; minor = n / 100 % 100; patch = n % 100 }

abbrev pub apple_text : AppleVersion → Text
apple_text v = show v.major ++ codes "." ++ show v.minor ++ codes "." ++ show v.patch

unfoldable pub apple_build_text : Option ℕ → Option Text
unfolding apple_version
apple_build_text none = none
apple_build_text (some number) =
    if ltb 0 number && leb number 99_990_000 then some (apple_text (apple_version number)) else none

-- The values of the dictionary that `projections` returns: texts, and the build number.
pub data Value : Type 0 where
  text : Text → Value
  number : ℕ → Value

abbrev pub texts : Option Text → Option Value
texts none = none
texts (some s) = some (text s)

abbrev pub numbers : Option ℕ → Option Value
numbers none = none
numbers (some n) = some (number n)

-- the entry of `projections(plan, ecosystem)` under a kind; `package` is computed in any case
unfoldable pub projections : Plan → Ecosystem → Kind → Result (Option Value)
projections plan ecosystem kind = do
  package_text ← package_version plan ecosystem
  ok (elim kind [
    | base ↦ some (text plan.base_version)
    | full ↦ some (text plan.version)
    | packaged ↦ some (text package_text)
    | build ↦ numbers plan.build_number
    | apple_build ↦ texts (apple_build_text plan.build_number)
  ])

abbrev pub prefixed : Text → Value → Value
prefixed prefix (text s) = text (prefix ++ s)
prefixed prefix (number n) = if is_empty prefix then number n else text (prefix ++ show n)

abbrev pub allocated : Option Value → Result Value
allocated none = err "Projection requires a valid allocated native build number"
allocated (some v) = ok v

unfoldable pub projected_value : Plan → Declaration → Result Value
projected_value plan item = do
  found ← projections plan item.ecosystem item.value
  value ← allocated found
  ok (prefixed item.prefix value)

-- the loop `for item in config["files"]: projected_value(plan, item)`
unfoldable pub project_all : Plan → List Declaration → Result (Unit {0})
project_all plan [] = ok tt
project_all plan (item ∷ items) = do value ← projected_value plan item; project_all plan items
