-- ===== src/Runs/Gate.antt =====
-- `require_current_attempt_jobs` and `release_gate_ready` of scripts/release_control.py, on what GitHub answers: the
-- jobs of the attempt, and the attempt's details.
pub mod Ready
use inverter_gateway.Prelude.{
  ℕ, zero, suc, Bool, true, false, not, Option, none, some, List, [], ◌∷◌, ◌&&◌, ◌||◌,
  if◌then◌else◌, Text, codes, ◌==◌, ◌=t◌, any, keep, String,
}
use inverter_gateway.Prelude.Result.{Result, ok, err, require, ◌>>=◌, ◌>>◌}
use inverter_gateway.Json.{Json, Fields, str, obj, get}
use inverter_gateway.Json.Texts.{text_is, number_is, is_none}
use inverter_gateway.Plan.Declaration.{one_of}
use inverter_gateway.Runs.Timing.{execution_timestamp, require_fresh_job_timing}

-- `WORKFLOW`
abbrev pub workflow : Text
workflow = codes ".github/workflows/release-pipeline.yml"

abbrev pub is_done : Fields → Bool
is_done job =
    text_is (get job (codes "status")) (codes "completed")
    && text_is (get job (codes "conclusion")) (codes "success")

abbrev pub as_dict : Json → String → Result Fields
as_dict (obj fields) message = ok fields
as_dict _ message = err message

abbrev pub is_gate : Fields → Bool
is_gate job = text_is (get job (codes "name")) (codes "Release gate")

-- The states of a run or a job that is not done.
abbrev pub active : List Text
active =
    codes "queued"
    ∷ codes "requested"
    ∷ codes "pending"
    ∷ codes "waiting"
    ∷ codes "in_progress"
    ∷ []

abbrev pub is_active : Option Json → Bool
is_active (some (str s)) = one_of active s
is_active _ = false

abbrev pub gate_failure : String
gate_failure = "Exactly one successful, completed Release gate is required; skipped is not a pass"

module _ (instant : Text → Option ℕ) (run_id : ℕ) (sha : Text) (attempt : ℕ) where
  -- the loop over the jobs
  unfoldable pub check_jobs : ℕ → List Fields → Result (Unit {0})
  check_jobs boundary [] = ok tt
  check_jobs boundary (job ∷ jobs) =
      let rest = check_jobs boundary jobs in
      if not (is_done job) then rest else (do
        require
            (text_is (get job (codes "head_sha")) sha
              && number_is (get job (codes "run_attempt")) attempt)
            "Successful job differs from the current release attempt"
        require_fresh_job_timing instant job boundary
        rest)

  unfoldable pub check_attempt : Result Json → List Fields → Result (Unit {0})
  check_attempt raw_detail jobs = do
    answer ← raw_detail
    detail ← as_dict answer "Malformed release attempt metadata"
    require
        (number_is (get detail (codes "id")) run_id
          && number_is (get detail (codes "run_attempt")) attempt
          && text_is (get detail (codes "head_sha")) sha
          && text_is (get detail (codes "path")) workflow)
        "Release attempt metadata identity mismatch"
    boundary ← execution_timestamp instant (get detail (codes "run_started_at"))
    check_jobs boundary jobs

  -- `require_current_attempt_jobs`
  unfoldable pub require_current_attempt_jobs : Result Json → List Fields → Result (Unit {0})
  require_current_attempt_jobs raw_detail jobs =
      if attempt == 1 then ok tt else check_attempt raw_detail jobs

  unfoldable pub one_gate : Fields → Result Json → List Fields → Bool → Result Bool
  one_gate gate raw_detail jobs allow_pending = do
    require (text_is (get gate (codes "head_sha")) sha) "Release gate SHA mismatch"
    (if allow_pending && is_active (get gate (codes "status"))
        then (do require (is_none (get gate (codes "conclusion"))) gate_failure; ok false)
        else (do
          require (is_done gate) gate_failure
          require_current_attempt_jobs raw_detail jobs
          ok true))

  abbrev pub of_gates : List Fields → Result Json → List Fields → Bool → Result Bool
  of_gates (gate ∷ []) raw_detail jobs allow_pending = one_gate gate raw_detail jobs allow_pending
  of_gates [] raw_detail jobs true = ok false
  of_gates _ raw_detail jobs allow_pending = err gate_failure

  -- `release_gate_ready`
  unfoldable pub release_gate_ready : Result (List Fields) → Result Json → Bool → Result Bool
  release_gate_ready answer raw_detail allow_pending = do
    jobs ← answer
    of_gates (keep is_gate jobs) raw_detail jobs allow_pending
