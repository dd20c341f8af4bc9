-- ===== src/Runs/Gate/Ready.antt =====
-- What `release_gate_ready` of scripts/release_control.py has seen when it answers True.
use inverter_gateway.Prelude.{
  not-true, not-false, ℕ, Bool, true, false, not, Option, some, List, [], ◌∷◌, ◌&&◌, ◌≡◌, sym, ap,
  ◌∙◌, String, subst, ◌⊎◌, inl, inr, Text, codes, ◌==◌, ==→eq, if_cases, refl, &&-true, All, keep,
  keep-true, keep-false,
}
use inverter_gateway.Prelude.Result.{Result, ok, bind_ok, guard_ok, ok-injective}
use inverter_gateway.Json.{Json, Fields, null, str, obj, get}
use inverter_gateway.Json.Texts.{text_is, number_is, is_none, text_is-eq}
use inverter_gateway.Runs.Timing.{execution_timestamp, require_fresh_job_timing}
use inverter_gateway.Runs.Gate.{
  is_done, as_dict, is_gate, is_active, check_jobs, check_attempt, require_current_attempt_jobs,
  one_gate, of_gates, release_gate_ready, workflow,
}
use inverter_gateway.Runs.Timing.Fresh.{IsTime, IsFresh, require_fresh_job_timing-IsFresh}

abbrev pub IsOfAttempt : Text → ℕ → Fields → Type 0
IsOfAttempt sha attempt job =
    (get job (codes "head_sha") ≡ some (str sha))
    × (number_is (get job (codes "run_attempt")) attempt ≡ true)

-- Every job that is done belongs to the attempt and ran after it started.
abbrev pub AllCurrent : (Text → Option ℕ) → Text → ℕ → ℕ → List Fields → Type 0
AllCurrent instant sha attempt boundary jobs =
    All (λ job. IsOfAttempt sha attempt job × IsFresh instant boundary job) (keep is_done jobs)

abbrev pub IsDone : Fields → Type 0
IsDone job =
    (get job (codes "status") ≡ some (str (codes "completed")))
    × (get job (codes "conclusion") ≡ some (str (codes "success")))

-- The answer for the attempt is its details: of this run, attempt, commit and workflow, and it started at a time.
abbrev pub IsDetail : (Text → Option ℕ) → ℕ → Text → ℕ → Result Json → ℕ → Type 0
IsDetail instant run_id sha attempt raw_detail start =
    (detail : Fields) × (raw_detail ≡ ok (obj detail))
    × (number_is (get detail (codes "id")) run_id ≡ true)
    × (number_is (get detail (codes "run_attempt")) attempt ≡ true)
    × (get detail (codes "head_sha") ≡ some (str sha))
    × (get detail (codes "path") ≡ some (str workflow))
    × IsTime instant detail (codes "run_started_at") start

-- On a rerun, every job that is done is of this attempt and ran after its start.
abbrev pub IsRerun : (Text → Option ℕ) → ℕ → Text → ℕ → Result Json → List Fields → Type 0
IsRerun instant run_id sha attempt raw_detail jobs =
    (start : ℕ) × IsDetail instant run_id sha attempt raw_detail start
    × AllCurrent instant sha attempt start jobs

-- The one gate of the jobs has passed, in the first attempt or in a rerun.
abbrev pub IsPassed : (Text → Option ℕ) → ℕ → Text → ℕ → Result Json → List Fields → Type 0
IsPassed instant run_id sha attempt raw_detail jobs =
    (gate : Fields) × (keep is_gate jobs ≡ gate ∷ [])
    × (get gate (codes "head_sha") ≡ some (str sha))
    × IsDone gate
    × ((attempt ≡ 1) ⊎ IsRerun instant run_id sha attempt raw_detail jobs)

pub as_dict-obj :
    (j : Json) (message : String) (fields : Fields) → as_dict j message ≡ ok fields → j ≡ obj fields
as_dict-obj (obj f) message fields h = ap (λ x. obj x) (ok-injective _ _ h)
as_dict-obj null message fields h = absurd (cc)
as_dict-obj _ message fields h = absurd (cc)

pub is_done-IsDone : (job : Fields) → is_done job ≡ true → IsDone job
is_done-IsDone job h =
    let (a, b) = &&-true (text_is (get job (codes "status")) (codes "completed")) _ h in
    (text_is-eq _ _ a, text_is-eq _ _ b)

module _ (instant : Text → Option ℕ) (run_id : ℕ) (sha : Text) (attempt : ℕ) where
  check_jobs-AllCurrent :
      (boundary : ℕ) (jobs : List Fields)
      → check_jobs instant run_id sha attempt boundary jobs ≡ ok tt
      → AllCurrent instant sha attempt boundary jobs
  unfolding check_jobs
  check_jobs-AllCurrent boundary [] h = tt
  check_jobs-AllCurrent boundary (job ∷ jobs) h =
      if_cases (not (is_done job)) _ _ h
        (λ other rest.
          subst Kept (sym (keep-false is_done job jobs (not-true _ other)))
            (check_jobs-AllCurrent boundary jobs rest))
        (λ done this. subst Kept (sym (keep-true is_done job jobs (not-false _ done))) (
          guard_ok
            (text_is (get job (codes "head_sha")) sha
              && number_is (get job (codes "run_attempt")) attempt)
            _ _ this
            λ t h1. bind_ok (require_fresh_job_timing instant job boundary) _ h1 λ _ fresh h2.
              let (a, b) = &&-true (text_is (get job (codes "head_sha")) sha) _ t in
              (
                (
                  (text_is-eq _ _ a, b),
                  require_fresh_job_timing-IsFresh instant job boundary fresh,
                ),
                check_jobs-AllCurrent boundary jobs h2,
              )))
    where
      Kept : List Fields → Type 0
      Kept = All (λ job. IsOfAttempt sha attempt job × IsFresh instant boundary job)

  check_attempt-IsRerun :
      (raw_detail : Result Json) (jobs : List Fields)
      → check_attempt instant run_id sha attempt raw_detail jobs ≡ ok tt
      → IsRerun instant run_id sha attempt raw_detail jobs
  unfolding check_attempt
  check_attempt-IsRerun raw_detail jobs h = bind_ok raw_detail _ h λ answer read h1.
      bind_ok (as_dict answer _) _ h1 λ detail dict h2.
        guard_ok
          (number_is (get detail (codes "id")) run_id
            && number_is (get detail (codes "run_attempt")) attempt
            && text_is (get detail (codes "head_sha")) sha
            && text_is (get detail (codes "path")) workflow)
          _ _ h2
          λ t h3.
            bind_ok (execution_timestamp instant (get detail (codes "run_started_at"))) _ h3
              λ start at h4.
                let (abc, path) =
                  &&-true
                    (number_is (get detail (codes "id")) run_id
                      && number_is (get detail (codes "run_attempt")) attempt
                      && text_is (get detail (codes "head_sha")) sha)
                    _ t in
                let (ab, head) =
                  &&-true
                    (number_is (get detail (codes "id")) run_id
                      && number_is (get detail (codes "run_attempt")) attempt)
                    _ abc in
                let (id, number) = &&-true (number_is (get detail (codes "id")) run_id) _ ab in
                (
                  start,
                  (
                    detail,
                    read ∙ ap (λ v. ok v) (as_dict-obj answer _ detail dict),
                    id,
                    number,
                    text_is-eq _ _ head,
                    text_is-eq _ _ path,
                    at,
                  ),
                  check_jobs-AllCurrent start jobs h4,
                )

  require_current_attempt_jobs-IsRerun :
      (raw_detail : Result Json) (jobs : List Fields)
      → require_current_attempt_jobs instant run_id sha attempt raw_detail jobs ≡ ok tt
      → (attempt ≡ 1) ⊎ IsRerun instant run_id sha attempt raw_detail jobs
  unfolding require_current_attempt_jobs
  require_current_attempt_jobs-IsRerun raw_detail jobs h =
      if_cases (attempt == 1) _ _ h (λ first _. inl (==→eq attempt 1 first))
        (λ _ rest. inr (check_attempt-IsRerun raw_detail jobs rest))

  one_gate-IsPassed :
      (gate : Fields) (raw_detail : Result Json) (jobs : List Fields) (allow_pending : Bool)
      → keep is_gate jobs ≡ gate ∷ []
      → one_gate instant run_id sha attempt gate raw_detail jobs allow_pending ≡ ok true
      → IsPassed instant run_id sha attempt raw_detail jobs
  unfolding one_gate
  one_gate-IsPassed gate raw_detail jobs allow_pending only h =
      guard_ok (text_is (get gate (codes "head_sha")) sha) _ _ h λ same h1.
        if_cases (allow_pending && is_active (get gate (codes "status"))) _ _ h1
          (λ _ h2. guard_ok (is_none (get gate (codes "conclusion"))) _ _ h2 λ _ no. absurd (cc))
          (λ _ h2. guard_ok (is_done gate) _ _ h2 λ done h3.
            bind_ok (require_current_attempt_jobs instant run_id sha attempt raw_detail jobs) _ h3
              λ _ current _. (
                gate,
                only,
                text_is-eq _ _ same,
                is_done-IsDone gate done,
                require_current_attempt_jobs-IsRerun raw_detail jobs current,
              ))

  of_gates-IsPassed :
      (gates : List Fields) (raw_detail : Result Json) (jobs : List Fields) (allow_pending : Bool)
      → keep is_gate jobs ≡ gates
      → of_gates instant run_id sha attempt gates raw_detail jobs allow_pending ≡ ok true
      → IsPassed instant run_id sha attempt raw_detail jobs
  of_gates-IsPassed (gate ∷ []) raw_detail jobs allow_pending only h =
      one_gate-IsPassed gate raw_detail jobs allow_pending only h
  of_gates-IsPassed [] raw_detail jobs true none_at_all h = absurd (cc)
  of_gates-IsPassed [] raw_detail jobs false none_at_all h = absurd (cc)
  of_gates-IsPassed (gate ∷ other ∷ gates) raw_detail jobs true several h = absurd (cc)
  of_gates-IsPassed (gate ∷ other ∷ gates) raw_detail jobs false several h = absurd (cc)

  -- When release_gate_ready answers True on what GitHub answers, the jobs of the attempt were
  -- read, exactly one of them is named Release gate, it has the commit of the release, it is
  -- completed with success, and, unless the attempt is the first, the details of this run,
  -- attempt, commit and workflow were read, and every completed and successful job is of this
  -- commit and attempt, started no earlier than the attempt did, and ran its successful steps, of
  -- which there is at least one, within its own interval.
  pub release_gate_ready-IsPassed :
      (answer : Result (List Fields)) (raw_detail : Result Json) (allow_pending : Bool)
      → release_gate_ready instant run_id sha attempt answer raw_detail allow_pending ≡ ok true
      → (jobs : List Fields) × (answer ≡ ok jobs)
        × IsPassed instant run_id sha attempt raw_detail jobs
  unfolding release_gate_ready
  release_gate_ready-IsPassed answer raw_detail allow_pending h = bind_ok answer _ h λ jobs read h1.
      (jobs, read, of_gates-IsPassed (keep is_gate jobs) raw_detail jobs allow_pending refl h1)
