-- ===== src/Validation/Jobs.antt =====
-- `check_event`, of the event and the channel that it names, and `check_run_jobs` of scripts/release_validation.py.
pub mod Channel
use inverter_gateway.Prelude.{
  Bool, true, false, not, Option, none, some, List, [], ◌∷◌, ◌++◌, ◌&&◌, if◌then◌else◌, Text, codes,
  ◌=t◌, all, keep, strip_prefix, starts_with,
}
use inverter_gateway.Prelude.Result.{Result, ok, err, require, ◌>>=◌, ◌>>◌}
use inverter_gateway.Json.{Json, Fields, str, obj, get}
use inverter_gateway.Json.Texts.{text_is}
use inverter_gateway.Plan.Declaration.{one_of}
use inverter_gateway.Validation.Policy.{channels}

abbrev pub marker_prefix : Text
marker_prefix = codes "checks / Validation profile ("

abbrev pub marker_name : Text → Text
marker_name channel = marker_prefix ++ (channel ++ codes ")")

abbrev pub gate_name : Text
gate_name = codes "checks / CI gate"

abbrev pub is_marker_name : Option Json → Bool
is_marker_name (some (str s)) = starts_with marker_prefix s
is_marker_name _ = false

unfoldable pub is_marker : Fields → Bool
is_marker job = is_marker_name (get job (codes "name"))

unfoldable pub has_name : Text → Fields → Bool
has_name name job = text_is (get job (codes "name")) name

-- the fields that the one job of a name has to have
unfoldable pub succeeded : Text → Fields → Bool
succeeded sha job =
    text_is (get job (codes "head_sha")) sha
    && text_is (get job (codes "status")) (codes "completed")
    && text_is (get job (codes "conclusion")) (codes "success")

abbrev pub one_succeeded : Text → List Fields → Bool
one_succeeded sha (job ∷ []) = succeeded sha job
one_succeeded sha _ = false

abbrev pub is_one : List Fields → Bool
is_one (job ∷ []) = true
is_one _ = false

-- `check_run_jobs`
unfoldable pub check_run_jobs : List Fields → Text → Text → Result (Unit {0})
check_run_jobs jobs channel sha = do
  require (is_one (keep is_marker jobs)) "Release validation must have exactly one channel profile"
  require (one_succeeded sha (keep (has_name gate_name) jobs))
      "Release validation profile and CI gate must succeed at the source SHA"
  require (one_succeeded sha (keep (has_name (marker_name channel)) jobs))
      "Release validation profile and CI gate must succeed at the source SHA"
  ok tt

-- The channel that an event stands for; `dispatched` is the input of a manual run.
unfoldable pub event_channel : Text → Option Text → Option Text
event_channel event dispatched =
    if event =t codes "push"
    then some (codes "beta")
    else if event =t codes "schedule"
    then some (codes "nightly")
    else if event =t codes "workflow_dispatch"
    then dispatched
    else none

abbrev pub is_channel : Option Text → Text → Bool
is_channel none channel = false
is_channel (some expected) channel = one_of channels channel && expected =t channel

-- `check_event`
unfoldable pub check_event : Text → Option Text → Text → Result (Unit {0})
check_event event dispatched channel = do
  require (is_channel (event_channel event dispatched) channel)
      "Validation channel differs from the release event"
  ok tt
