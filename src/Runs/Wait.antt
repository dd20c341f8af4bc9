-- ===== src/Runs/Wait.antt =====
-- `wait_for_executing_run` of scripts/release_control.py. Each round reads GitHub and the clock; what a round reads is a
-- poll. Clock readings are in nanoseconds.
pub mod Executing
pub mod Deadline
use inverter_gateway.Prelude.{
  ℕ, zero, suc, ◌+◌, ◌*◌, Bool, true, false, not, Option, none, some, List, [], ◌∷◌, ◌&&◌, ◌||◌,
  if◌then◌else◌, Text, codes, ltb, String,
}
use inverter_gateway.Prelude.Result.{Result, ok, err, require, ◌>>=◌, ◌>>◌}
use inverter_gateway.Json.{Json, Fields, obj, get}
use inverter_gateway.Json.Texts.{text_is, number_is, is_none}
use inverter_gateway.Runs.Gate.{as_dict, is_active, release_gate_ready}
use inverter_gateway.Runs.Provenance.{validate_run_provenance}
use inverter_gateway.Runs.Execution.{Environment, check_execution}

-- What one round reads; the clock is read before a run is returned, and before the wait goes on.
pub record Poll : Type 0 where
  pub run : Result Json
  pub environment : Environment
  pub jobs : Result (List Fields)
  pub detail : Result Json
  pub ready_at : ℕ
  pub waits_at : ℕ

abbrev pub second : ℕ
second = 1_000_000_000

-- `EXECUTING_RUN_WAIT_SECONDS`
abbrev pub executing_run_wait : ℕ
executing_run_wait = 300 * second

-- What is asked of the run.
pub record Target : Type 0 where
  pub run_id : ℕ
  pub channel : Text
  pub info : Fields
  pub sha : Text
  pub attempt : ℕ
  pub gate : Bool

unfoldable pub go_on : ℕ → Poll → Fields → Result (Option Fields)
go_on deadline p run = do
  require (is_active (get run (codes "status"))) "Publication run is not active"
  require (ltb p.waits_at deadline) "Publication run did not become ready in time"
  ok none

unfoldable pub finish : ℕ → Poll → Fields → Bool → Result (Option Fields)
finish deadline p run ready =
    if ready
    then (do
      require (ltb p.ready_at deadline) "Publication metadata was not ready in time"
      ok (some run))
    else go_on deadline p run

abbrev pub after_round : Result (Option Fields) → Result Fields → Result Fields
after_round (err e) rest = err e
after_round (ok (some run)) rest = ok run
after_round (ok none) rest = rest

module _ (lower : Text → Text) (repo : Text) (instant : Text → Option ℕ) where
  -- `status == "in_progress" and (not gate or release_gate_ready(...))`
  unfoldable pub is_ready : Target → Poll → Fields → Result Bool
  is_ready t p run =
      if not (text_is (get run (codes "status")) (codes "in_progress"))
      then ok false
      else if not t.gate
      then ok true
      else release_gate_ready instant t.run_id t.sha t.attempt p.jobs p.detail true

  unfoldable pub bound_run : Target → Poll → Result Fields
  bound_run t p = do
    answer ← p.run
    run ← as_dict answer "AttributeError"
    require (number_is (get run (codes "id")) t.run_id) "Execution run identity mismatch"
    check_execution lower repo p.environment t.run_id t.channel t.info run
    validate_run_provenance lower repo run t.info t.sha t.attempt
    require (is_none (get run (codes "conclusion"))) "Publication run already has a conclusion"
    ok run

  -- one round: the run to return, or `none` to wait on
  unfoldable pub round : Target → ℕ → Poll → Result (Option Fields)
  round t deadline p = do run ← bound_run t p; ready ← is_ready t p run; finish deadline p run ready

  -- the loop from a round on
  unfoldable pub wait_from : Target → ℕ → (ℕ → Poll) → ℕ → ℕ → Result Fields
  wait_from t deadline polls zero n = err "out of fuel"
  wait_from t deadline polls (suc fuel) n =
      after_round (round t deadline (polls n)) (wait_from t deadline polls fuel (suc n))

  -- `wait_for_executing_run`, from a reading of the clock; 151 rounds are enough
  unfoldable pub wait_for_executing_run : Target → ℕ → (ℕ → Poll) → Result Fields
  wait_for_executing_run t start polls = wait_from t (start + executing_run_wait) polls 151 0
