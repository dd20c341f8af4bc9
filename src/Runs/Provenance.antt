-- ===== src/Runs/Provenance.antt =====
-- `validate_run_provenance` and `validate_run` of scripts/release_control.py. `repo` is the repository of the client;
-- `str.lower` is the parameter `lower`.
use inverter_gateway.Prelude.{
  ℕ, Bool, false, Option, none, some, List, [], ◌∷◌, ◌&&◌, if◌then◌else◌, Text, codes, ◌=t◌, ltb,
  read, is_positive_numeral, String,
}
use inverter_gateway.Prelude.Result.{Result, ok, err, require, ◌>>=◌, ◌>>◌}
use inverter_gateway.Json.{Json, Fields, int, str, obj, get}
use inverter_gateway.Json.Equality.{py_eq}
use inverter_gateway.Json.Texts.{text_is, number_is, value_or_none}
use inverter_gateway.Plan.Patterns.{is_sha}
use inverter_gateway.Plan.Declaration.{one_of}
use inverter_gateway.Plan.Declared.{present}
use inverter_gateway.Runs.Gate.{workflow, is_done, release_gate_ready}

-- `positive(value, name)`
abbrev pub positive : Option Json → String → Result ℕ
positive (some (int n)) message = if ltb 0 n then ok n else err message
positive (some (str s)) message = if is_positive_numeral s then ok (read s) else err message
positive _ message = err message

-- `d.get("full_name", "")` of a dictionary that may be missing
abbrev pub name_text : Option Json → Result Text
name_text none = ok []
name_text (some (str name)) = ok name
name_text (some _) = err "AttributeError"

abbrev pub full_name : Option Json → Result Text
full_name none = ok []
full_name (some (obj repository)) = name_text (get repository (codes "full_name"))
full_name (some _) = err "AttributeError"

abbrev pub run_events : List Text
run_events = codes "push" ∷ codes "schedule" ∷ codes "workflow_dispatch" ∷ []

abbrev pub is_run_event : Option Json → Bool
is_run_event (some (str s)) = one_of run_events s
is_run_event _ = false

module _ (lower : Text → Text) (repo : Text) where
  -- `validate_run_provenance`
  unfoldable pub validate_run_provenance : Fields → Fields → Text → ℕ → Result (Unit {0})
  validate_run_provenance run info sha attempt = do
    repository ← full_name (get run (codes "repository"))
    require (lower repository =t lower repo) "Source run belongs to another repository"
    head_repository ← full_name (get run (codes "head_repository"))
    require (lower head_repository =t lower repo) "Source run comes from another repository"
    require (text_is (get run (codes "head_sha")) sha && is_sha sha) "Source run SHA mismatch"
    require (text_is (get run (codes "path")) workflow)
        "Source run uses an unexpected workflow path"
    branch ← present (get info (codes "default_branch")) "KeyError"
    require (py_eq (value_or_none (get run (codes "head_branch"))) branch)
        "Source run does not target the default branch"
    require (is_run_event (get run (codes "event"))) "Untrusted source run event"
    require (number_is (get run (codes "run_attempt")) attempt)
        "Source run was rerun; evidence is not from its latest attempt"
    ok tt

  module _ (instant : Text → Option ℕ) where
    unfoldable pub check_status : Fields → Bool → Result (Unit {0})
    check_status run completed =
        if completed
        then require (is_done run) "Source run has not completed successfully"
        else require (text_is (get run (codes "status")) (codes "in_progress"))
            "Publication run is not in progress"

    -- the part under `if gate:`, on the answers for the jobs and the details of the attempt
    unfoldable pub check_gate :
        Fields → Text → ℕ → Bool → Result (List Fields) → Result Json → Result (Unit {0})
    check_gate run sha attempt gate jobs detail =
        if gate
        then (do
          run_id ← positive (get run (codes "id")) "Invalid run ID"
          ready ← release_gate_ready instant run_id sha attempt jobs detail false
          ok tt)
        else ok tt

    -- `validate_run`
    unfoldable pub validate_run :
        Fields
        → Fields
        → Text
        → ℕ
        → Bool
        → Bool
        → Result (List Fields)
        → Result Json
        → Result (Unit {0})
    validate_run run info sha attempt completed gate jobs detail = do
      validate_run_provenance run info sha attempt
      check_status run completed
      check_gate run sha attempt gate jobs detail
