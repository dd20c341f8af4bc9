-- ===== src/Runs/Timing/Fresh.antt =====
-- What `_require_fresh_job_timing` of scripts/release_control.py accepts.
use inverter_gateway.Prelude.{
  not-true, ℕ, ◌≤◌, false, not, Option, List, [], ◌∷◌, ◌&&◌, ◌≡◌, Text, codes, leb, leb→le, &&-true,
  All, keep, length,
}
use inverter_gateway.Prelude.Result.{ok, bind_ok, guard_ok}
use inverter_gateway.Json.{Fields, get}
use inverter_gateway.Json.Texts.{text_is}
use inverter_gateway.Runs.Timing.{
  execution_timestamp, step_list, is_success, check_steps, require_fresh_job_timing,
}

-- The field of a job or a step is a time.
abbrev pub IsTime : (Text → Option ℕ) → Fields → Text → ℕ → Type 0
IsTime instant job key t = execution_timestamp instant (get job key) ≡ ok t

-- A step that lies between two times.
abbrev pub IsWithin : (Text → Option ℕ) → ℕ → ℕ → Fields → Type 0
IsWithin instant start stop step =
    (from : ℕ) × (to : ℕ) × IsTime instant step (codes "started_at") from
    × IsTime instant step (codes "completed_at") to
    × (start ≤ from)
    × (from ≤ to)
    × (to ≤ stop)

-- A job that ran after the boundary, with its successful steps inside.
abbrev pub IsFresh : (Text → Option ℕ) → ℕ → Fields → Type 0
IsFresh instant boundary job =
    (start : ℕ) × (stop : ℕ) × IsTime instant job (codes "started_at") start
    × IsTime instant job (codes "completed_at") stop
    × (boundary ≤ start)
    × (start ≤ stop)
    × ((steps : List Fields) × (step_list (get job (codes "steps")) ≡ ok steps)
        × (leb (length (keep is_success steps)) 0 ≡ false)
        × All (IsWithin instant start stop) (keep is_success steps))

module _ (instant : Text → Option ℕ) where
  check_steps-IsWithin :
      (start stop : ℕ) (steps : List Fields)
      → check_steps instant start stop steps ≡ ok tt
      → All (IsWithin instant start stop) steps
  unfolding check_steps
  check_steps-IsWithin start stop [] h = tt
  check_steps-IsWithin start stop (step ∷ steps) h =
      guard_ok (text_is (get step (codes "status")) (codes "completed")) _ _ h λ _ h1.
        bind_ok (execution_timestamp instant (get step (codes "started_at"))) _ h1 λ from hf h2.
          bind_ok (execution_timestamp instant (get step (codes "completed_at"))) _ h2 λ to ht h3.
            guard_ok (leb start from && leb from to && leb to stop) _ _ h3 λ t h4.
              let (ab, c) = &&-true (leb start from && leb from to) _ t in
              let (a, b) = &&-true (leb start from) _ ab in
              (
                (from, to, hf, ht, leb→le start from a, leb→le from to b, leb→le to stop c),
                check_steps-IsWithin start stop steps h4,
              )

  pub require_fresh_job_timing-IsFresh :
      (job : Fields) (boundary : ℕ)
      → require_fresh_job_timing instant job boundary ≡ ok tt
      → IsFresh instant boundary job
  unfolding require_fresh_job_timing
  require_fresh_job_timing-IsFresh job boundary h =
      bind_ok (execution_timestamp instant (get job (codes "started_at"))) _ h λ start hs h1.
        bind_ok (execution_timestamp instant (get job (codes "completed_at"))) _ h1 λ stop he h2.
          guard_ok (leb boundary start && leb start stop) _ _ h2 λ t h3.
            bind_ok (step_list (get job (codes "steps"))) _ h3 λ steps hl h4.
              guard_ok (not (leb (length (keep is_success steps)) 0)) _ _ h4 λ some_step h5.
                let (a, b) = &&-true (leb boundary start) _ t in
                (
                  start,
                  stop,
                  hs,
                  he,
                  leb→le boundary start a,
                  leb→le start stop b,
                  (
                    steps,
                    hl,
                    not-true _ some_step,
                    check_steps-IsWithin start stop (keep is_success steps) h5,
                  ),
                )
