-- ===== src/Examples/RunsFacts.antt =====
-- A nightly run in its second attempt, and the theorems of Runs at it.
use inverter_gateway.Prelude.{
  ℕ, zero, suc, ◌+◌, ◌*◌, ◌≡◌, refl, true, Option, none, some, List, [], ◌∷◌, ◌=t◌, Text, codes,
  read, read_from, take, drop, show, arith, String,
}
use inverter_gateway.Prelude.Result.{ok, err}
use inverter_gateway.Json.{Json, Fields, null, int, str, obj, arr, end, field, nil, cons, get}
use inverter_gateway.Runs.Timing.{
  after_shape, is_local_time, ends_z, text_time, execution_timestamp, dict_items, step_list,
  check_steps, require_fresh_job_timing,
}
use inverter_gateway.Runs.Gate.{
  workflow, check_jobs, check_attempt, require_current_attempt_jobs, one_gate, release_gate_ready,
}
use inverter_gateway.Runs.Gate.Ready.{IsPassed, release_gate_ready-IsPassed}
use inverter_gateway.Runs.Provenance.{validate_run_provenance}
use inverter_gateway.Runs.Execution.{Environment, allowed_events, check_dispatch, check_execution}
use inverter_gateway.Runs.Wait.{
  Poll, Target, second, executing_run_wait, is_ready, bound_run, go_on, finish, round, wait_from,
  wait_for_executing_run,
}
use inverter_gateway.Runs.Wait.Executing.{IsChecked, wait_for_executing_run-IsChecked}
use inverter_gateway.Runs.Wait.Deadline.{wait_from-fuel}
use inverter_gateway.Examples.Values.{sample_sha}
use inverter_gateway.Json.Equality.{py_eq}
use inverter_gateway.Plan.Patterns.{is_sha}

-- Opening this opens the run checks, so that they run on concrete answers.
unfoldable runs_code : Unit {0}
unfolding get ◌=t◌ py_eq show is_sha read read_from after_shape is_local_time ends_z text_time
    execution_timestamp dict_items step_list check_steps require_fresh_job_timing check_jobs
    check_attempt require_current_attempt_jobs one_gate release_gate_ready validate_run_provenance
    allowed_events check_dispatch check_execution is_ready bound_run go_on finish round wait_from
    wait_for_executing_run
runs_code = tt

-- The seconds of a time, as a calendar that knows one minute.
abbrev one_minute : Text → Option ℕ
one_minute text = some (read (take 2 (drop 17 text)))

abbrev text_field : String → String → Fields → Fields
text_field key value rest = field (codes key) (str (codes value)) rest

abbrev timed : String → String → Fields → Fields
timed start stop rest = text_field "started_at" start (
    text_field "completed_at" stop
      (text_field "status" "completed" (text_field "conclusion" "success" rest)))

abbrev gate_job : Fields
gate_job = timed "2026-01-02T03:04:10Z" "2026-01-02T03:04:30Z" (
    text_field "name" "Release gate" (
      field (codes "head_sha") (str sample_sha) (
        field (codes "run_attempt") (int 2) (
          field (codes "steps")
            (arr (cons (obj (timed "2026-01-02T03:04:11Z" "2026-01-02T03:04:20.5+00:00" end)) nil))
            end))))

abbrev attempt_detail : Json
attempt_detail = obj (
    field (codes "id") (int 7) (
      field (codes "run_attempt") (int 2) (
        field (codes "head_sha") (str sample_sha) (
          field (codes "path") (str workflow)
            (text_field "run_started_at" "2026-01-02T03:04:05Z" end)))))

release_gate_ready-IsPassed_example :
    (jobs : List Fields) × (ok (gate_job ∷ []) ≡ ok jobs)
    × IsPassed one_minute 7 sample_sha 2 (ok attempt_detail) jobs
unfolding runs_code
release_gate_ready-IsPassed_example =
    release_gate_ready-IsPassed one_minute 7 sample_sha 2 (ok (gate_job ∷ [])) (ok attempt_detail)
      true refl

abbrev sample_info : Fields
sample_info = text_field "default_branch" "main" (text_field "full_name" "o/r" end)

abbrev running : String → Fields
running status = field (codes "id") (int 7) (
    field (codes "run_attempt") (int 2) (
      field (codes "head_sha") (str sample_sha) (
        field (codes "path") (str workflow) (
          text_field "head_branch" "main" (
            text_field "event" "schedule" (
              text_field "status" status (
                field (codes "conclusion") null (
                  field (codes "repository") (obj sample_info)
                    (field (codes "head_repository") (obj sample_info) end)))))))))

abbrev nightly_environment : Environment
nightly_environment = record {
  actions = some (codes "true");
  repository = some (codes "o/r");
  run_id = some (codes "7");
  run_attempt = some (codes "2");
  ref = some (codes "refs/heads/main");
  workflow_ref = some (codes "o/r/.github/workflows/release-pipeline.yml@refs/heads/main");
  event_name = some (codes "schedule");
  event_path = none;
  checked_out = ok sample_sha;
  payload = err "no event";
}

abbrev poll_at : String → ℕ → Poll
poll_at status now = record {
  run = ok (obj (running status));
  environment = nightly_environment;
  jobs = ok (gate_job ∷ []);
  detail = ok attempt_detail;
  ready_at = now;
  waits_at = now;
}

-- Queued in the first poll, in progress after it.
abbrev every_two : ℕ → Poll
every_two zero = poll_at "queued" (1 * second)
every_two (suc n) = poll_at "in_progress" (1 * second + suc n * (2 * second))

abbrev nightly_target : Target
nightly_target = record {
  run_id = 7;
  channel = codes "nightly";
  info = sample_info;
  sha = sample_sha;
  attempt = 2;
  gate = true;
}

abbrev same : Text → Text
same text = text

wait_for_executing_run-IsChecked_example :
    (k : ℕ) × IsChecked same
      (codes "o/r")
      one_minute
      nightly_target
      (0 + executing_run_wait)
      (every_two k)
      (running "in_progress")
unfolding runs_code
wait_for_executing_run-IsChecked_example =
    wait_for_executing_run-IsChecked same (codes "o/r") one_minute nightly_target 0 every_two
      (running "in_progress") refl

abbrev never_ready : ℕ → Poll
never_ready n = poll_at "queued" (n * (2 * second))

wait_from-fuel_example :
    wait_from same
      (codes "o/r")
      one_minute
      nightly_target
      (0 + executing_run_wait)
      never_ready
      151
      0
    ≡ wait_from same
        (codes "o/r")
        one_minute
        nightly_target
        (0 + executing_run_wait)
        never_ready
        400
        0
wait_from-fuel_example =
    wait_from-fuel same (codes "o/r") one_minute nightly_target 0 151 400 never_ready
      (λ n. omega arith) (omega arith) (omega arith) (omega arith)
