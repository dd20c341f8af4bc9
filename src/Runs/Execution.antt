-- ===== src/Runs/Execution.antt =====
-- `check_execution` of scripts/release_control.py: the environment of the publishing process against its run. `str` of a
-- list or a dictionary is not modelled: such a value differs from every variable.
use inverter_gateway.Prelude.{
  ℕ, ◌+◌, Bool, true, false, Option, none, some, List, [], ◌∷◌, ◌++◌, if◌then◌else◌, Text, codes,
  ◌=t◌, show,
}
use inverter_gateway.Prelude.Result.{Result, ok, err, require, ◌>>=◌, ◌>>◌}
use inverter_gateway.Json.{Json, Fields, null, boolean, int, negative, float, str, obj, get}
use inverter_gateway.Json.Texts.{text_is, value_or_none}
use inverter_gateway.Plan.Declaration.{one_of}
use inverter_gateway.Plan.Declared.{present}
use inverter_gateway.Runs.Gate.{workflow}

-- What the process reads besides GitHub: its variables, the commit that is checked out, and the JSON
-- of the event file.
pub record Environment : Type 0 where
  pub actions : Option Text
  pub repository : Option Text
  pub run_id : Option Text
  pub run_attempt : Option Text
  pub ref : Option Text
  pub workflow_ref : Option Text
  pub event_name : Option Text
  pub event_path : Option Text
  pub checked_out : Result Text
  pub payload : Result Json

-- `str(value)`
abbrev pub python_str : Json → Option Text
python_str null = some (codes "None")
python_str (boolean true) = some (codes "True")
python_str (boolean false) = some (codes "False")
python_str (int n) = some (show n)
python_str (negative n) = some (codes "-" ++ show (n + 1))
python_str (float token) = some token
python_str (str s) = some s
python_str _ = none

-- `os.environ.get(name) == text`
abbrev pub same_text : Option Text → Option Text → Bool
same_text (some s) (some t) = s =t t
same_text _ _ = false

abbrev pub surrounded : Text → Option Text → Text → Option Text
surrounded front none back = none
surrounded front (some s) back = some (front ++ s ++ back)

abbrev pub joined : Option Text → Option Text → Option Text
joined (some s) (some t) = some (s ++ t)
joined _ _ = none

abbrev pub or_empty : Option Text → Text
or_empty none = []
or_empty (some s) = s

-- `allowed[channel]`
unfoldable pub allowed_events : Text → Result (List Text)
allowed_events channel =
    if channel =t codes "nightly"
    then ok (codes "schedule" ∷ codes "workflow_dispatch" ∷ [])
    else if channel =t codes "beta"
    then ok (codes "push" ∷ codes "workflow_dispatch" ∷ [])
    else if one_of (codes "rc" ∷ codes "stable" ∷ []) channel
    then ok (codes "workflow_dispatch" ∷ [])
    else err "KeyError"

abbrev pub is_member : Option Text → List Text → Bool
is_member none names = false
is_member (some s) names = one_of names s

-- `event == run.get("event")`
abbrev pub same_event : Option Text → Option Json → Bool
same_event (some s) j = text_is j s
same_event none none = true
same_event none (some null) = true
same_event none (some _) = false

abbrev pub inputs_channel : Option Json → Result (Option Json)
inputs_channel none = ok none
inputs_channel (some (obj inputs)) = ok (get inputs (codes "channel"))
inputs_channel (some _) = err "AttributeError"

abbrev pub payload_channel : Json → Result (Option Json)
payload_channel (obj event) = inputs_channel (get event (codes "inputs"))
payload_channel _ = err "Workflow dispatch input channel differs"

abbrev pub has_path : Option Text → Bool
has_path none = false
has_path (some []) = false
has_path (some (c ∷ s)) = true

abbrev pub is_dispatch : Option Text → Bool
is_dispatch event = same_text event (some (codes "workflow_dispatch"))

unfoldable pub check_dispatch : Environment → Text → Result (Unit {0})
check_dispatch env channel =
    if is_dispatch env.event_name
    then (do
      require (has_path env.event_path) "Missing workflow dispatch event"
      payload ← env.payload
      input ← payload_channel payload
      require (text_is input channel) "Workflow dispatch input channel differs")
    else ok tt

-- `check_execution`
unfoldable pub check_execution :
    (Text → Text) → Text → Environment → ℕ → Text → Fields → Fields → Result (Unit {0})
check_execution lower repo env run_id channel info run = do
  require (same_text env.actions (some (codes "true"))) "Publication must run inside GitHub Actions"
  require (lower (or_empty env.repository) =t lower repo) "Execution repository mismatch"
  require (same_text env.run_id (some (show run_id))) "Execution run ID mismatch"
  require (same_text env.run_attempt (python_str (value_or_none (get run (codes "run_attempt")))))
      "Execution run attempt mismatch"
  branch ← present (get info (codes "default_branch")) "KeyError"
  require (same_text env.ref (surrounded (codes "refs/heads/") (python_str branch) []))
      "Dispatch must target the default branch"
  name ← present (get info (codes "full_name")) "KeyError"
  require
      (same_text env.workflow_ref (
        joined (surrounded [] (python_str name) (codes "/" ++ workflow))
          (surrounded (codes "@refs/heads/") (python_str branch) [])))
      "Execution workflow mismatch"
  sha ← env.checked_out
  require (text_is (get run (codes "head_sha")) sha) "Checkout does not match the source run SHA"
  require (same_event env.event_name (get run (codes "event"))) "Execution event mismatch"
  events ← allowed_events channel
  require (is_member env.event_name events) "Event cannot publish channel"
  check_dispatch env channel
