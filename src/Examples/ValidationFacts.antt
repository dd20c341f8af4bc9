-- ===== src/Examples/ValidationFacts.antt =====
-- A policy with one regular and one beta validator, a beta gate that passed, and the jobs of its run.
use inverter_gateway.Prelude.{
  true, List, [], ◌∷◌, ◌≡◌, refl, Text, codes, show, ◌=t◌, strip_prefix, String,
}
use inverter_gateway.Prelude.Result.{ok}
use inverter_gateway.Json.{
  Json, Fields, str, boolean, arr, obj, cons, nil, field, end, get, keys, only, exactly,
}
use inverter_gateway.Plan.Patterns.{split_on}
use inverter_gateway.Validation.Policy.{
  is_workflow_file, all_distinct, valid_names, opted_in, channel_workflows, numbered,
  coverage_results, expected_results,
}
use inverter_gateway.Validation.Gate.{lookup, all_passed, check_results}
use inverter_gateway.Validation.Gate.Complete.{IsComplete, check_results-IsComplete}
use inverter_gateway.Validation.Jobs.{
  is_marker, has_name, succeeded, marker_name, gate_name, check_run_jobs,
}
use inverter_gateway.Validation.Jobs.Channel.{
  IsValidated, check_run_jobs-IsValidated, check_run_jobs_unique,
}

-- Opening this opens the validation, so that it runs on concrete values.
unfoldable validation_code : Unit {0}
unfolding show ◌=t◌ strip_prefix get keys only exactly split_on is_workflow_file all_distinct
    valid_names opted_in channel_workflows numbered coverage_results expected_results lookup
    all_passed check_results is_marker has_name succeeded check_run_jobs
validation_code = tt

abbrev gate_policy : Fields
gate_policy =
    field (codes "channel_validation_workflows")
      (obj (field (codes "beta") (arr (cons (str (codes "beta.yml")) nil)) end))
      (field (codes "single_entry_ci") (boolean true) (
        field (codes "versioning") (obj end)
          (field (codes "validation_workflows") (arr (cons (str (codes "ci.yml")) nil)) end)))

abbrev reported : String → Json
reported result = obj (field (codes "result") (str (codes result)) end)

abbrev gate_results : Fields
gate_results =
    field (codes "scope")
      (obj (
        field (codes "result") (str (codes "success"))
          (field (codes "outputs") (obj (field (codes "run") (str (codes "true")) end)) end)))
      (field (codes "workflow-contracts") (reported "success") (
        field (codes "release-contracts") (reported "success") (
          field (codes "check-0") (reported "skipped")
            (field (codes "beta-check-0") (reported "success") end))))

gate_passes : check_results gate_policy (codes "beta") gate_results ≡ ok tt
unfolding validation_code
gate_passes = refl

check_results-IsComplete_example : IsComplete gate_policy (codes "beta") gate_results
check_results-IsComplete_example =
    check_results-IsComplete gate_policy (codes "beta") gate_results gate_passes

abbrev sample_job : Text → Fields
sample_job name = field (codes "name") (str name) (
    field (codes "head_sha") (str (codes "abc")) (
      field (codes "status") (str (codes "completed"))
        (field (codes "conclusion") (str (codes "success")) end)))

abbrev sample_jobs : List Fields
sample_jobs =
    sample_job (codes "build") ∷ sample_job gate_name ∷ sample_job (marker_name (codes "beta")) ∷ []

jobs_pass : check_run_jobs sample_jobs (codes "beta") (codes "abc") ≡ ok tt
unfolding validation_code
jobs_pass = refl

check_run_jobs-IsValidated_example : IsValidated sample_jobs (codes "beta") (codes "abc")
check_run_jobs-IsValidated_example =
    check_run_jobs-IsValidated sample_jobs (codes "beta") (codes "abc") jobs_pass

check_run_jobs_unique_example : (codes "beta" ≡ codes "beta") × (codes "abc" ≡ codes "abc")
check_run_jobs_unique_example =
    check_run_jobs_unique sample_jobs (codes "beta") (codes "beta") (codes "abc") (codes "abc")
      jobs_pass jobs_pass
