-- ===== src/Runs/Wait/Executing.antt =====
-- The run that `wait_for_executing_run` of scripts/release_control.py returns.
use inverter_gateway.Prelude.{
  not-true, not-false, ℕ, zero, suc, ◌+◌, ◌<◌, Bool, true, false, not, Option, none, some, ◌≡◌,
  refl, ap, subst, ◌∙◌, ◌⊎◌, inl, inr, List, Text, codes, ltb, ltb→lt, if_cases, some_injective,
}
use inverter_gateway.Prelude.Result.{Result, ok, err, bind_ok, guard_ok, ok-injective}
use inverter_gateway.Json.{Fields, obj, str, get}
use inverter_gateway.Json.Texts.{text_is, number_is, is_none, text_is-eq}
use inverter_gateway.Runs.Gate.{as_dict, is_active}
use inverter_gateway.Runs.Gate.Ready.{IsPassed, as_dict-obj, release_gate_ready-IsPassed}
use inverter_gateway.Runs.Provenance.{validate_run_provenance}
use inverter_gateway.Runs.Execution.{check_execution}
use inverter_gateway.Runs.Wait.{
  Poll, Target, executing_run_wait, is_ready, bound_run, go_on, finish, round, after_round,
  wait_from, wait_for_executing_run,
}

module _ (lower : Text → Text) (repo : Text) (instant : Text → Option ℕ) where
  -- The run of a poll is the target's, this process executes it, and it is of the release's commit.
  abbrev pub IsBound : Target → Poll → Fields → Type 0
  IsBound t p run =
      (p.run ≡ ok (obj run))
      × (number_is (get run (codes "id")) t.run_id ≡ true)
      × (check_execution lower repo p.environment t.run_id t.channel t.info run ≡ ok tt)
      × (validate_run_provenance lower repo run t.info t.sha t.attempt ≡ ok tt)
      × (is_none (get run (codes "conclusion")) ≡ true)

  -- The run is in progress and, where the target asks for it, its gate has passed.
  abbrev pub IsReady : Target → Poll → Fields → Type 0
  IsReady t p run =
      (get run (codes "status") ≡ some (str (codes "in_progress")))
      × ((t.gate ≡ false)
          ⊎ ((jobs : List Fields) × (p.jobs ≡ ok jobs)
              × IsPassed instant t.run_id t.sha t.attempt p.detail jobs))

  bound_run-IsBound :
      (t : Target) (p : Poll) (run : Fields)
      → bound_run lower repo instant t p ≡ ok run
      → IsBound t p run
  unfolding bound_run
  bound_run-IsBound t p run h = bind_ok p.run _ h λ answer read h1.
      bind_ok (as_dict answer _) _ h1 λ found dict h2.
        guard_ok (number_is (get found (codes "id")) t.run_id) _ _ h2 λ same h3.
          bind_ok (check_execution lower repo p.environment t.run_id t.channel t.info found) _ h3
            λ _ run_here h4.
              bind_ok (validate_run_provenance lower repo found t.info t.sha t.attempt) _ h4
                λ _ trusted h5.
                  guard_ok (is_none (get found (codes "conclusion"))) _ _ h5 λ no_end h6.
                    subst (IsBound t p) (ok-injective _ _ h6) (
                      read ∙ ap (λ v. ok v) (as_dict-obj answer _ found dict),
                      same,
                      run_here,
                      trusted,
                      no_end,
                    )

  is_ready-IsReady :
      (t : Target) (p : Poll) (run : Fields)
      → is_ready lower repo instant t p run ≡ ok true
      → IsReady t p run
  unfolding is_ready
  is_ready-IsReady t p run h =
      if_cases (not (text_is (get run (codes "status")) (codes "in_progress"))) _ _ h
        (λ _ never. absurd (cc))
        (λ status h1.
          let going = text_is-eq (get run (codes "status")) _ (not-false _ status) in
          if_cases (not t.gate) _ _ h1 (λ free _. (going, inl (not-true t.gate free)))
            (λ _ h2. (
              going,
              inr (
                  release_gate_ready-IsPassed instant t.run_id t.sha t.attempt p.jobs p.detail true
                    h2),
            )))

  finish-some :
      (deadline : ℕ) (p : Poll) (run found : Fields) (ready : Bool)
      → finish deadline p run ready ≡ ok (some found)
      → (run ≡ found) × (ready ≡ true) × (p.ready_at < deadline)
  unfolding finish go_on
  finish-some deadline p run found true h =
      guard_ok (ltb p.ready_at deadline) _ _ h
        λ before h1. (some_injective (ok-injective _ _ h1), refl, ltb→lt p.ready_at deadline before)
  finish-some deadline p run found false h =
      guard_ok (is_active (get run (codes "status"))) _ _ h
        λ _ h1. guard_ok (ltb p.waits_at deadline) _ _ h1 λ _ never. absurd (cc)

  -- What a round has checked of the run that it returns.
  abbrev pub IsChecked : Target → ℕ → Poll → Fields → Type 0
  IsChecked t deadline p run = IsBound t p run × IsReady t p run × (p.ready_at < deadline)

  round-IsChecked :
      (t : Target) (deadline : ℕ) (p : Poll) (found : Fields)
      → round lower repo instant t deadline p ≡ ok (some found)
      → IsChecked t deadline p found
  unfolding round
  round-IsChecked t deadline p found h =
      bind_ok (bound_run lower repo instant t p) _ h λ run bound h1.
        bind_ok (is_ready lower repo instant t p run) _ h1 λ ready asked h2.
          let (same, is_true, before) = finish-some deadline p run found ready h2 in
          subst (IsChecked t deadline p) same (
            bound_run-IsBound t p run bound,
            is_ready-IsReady t p run (asked ∙ ap ok is_true),
            before,
          )

  after_round_ok :
      (r : Result (Option Fields)) (rest : Result Fields) (run : Fields)
      → after_round r rest ≡ ok run
      → (r ≡ ok (some run)) ⊎ ((r ≡ ok none) × (rest ≡ ok run))
  after_round_ok (err e) rest run h = absurd (cc)
  after_round_ok (ok none) rest run h = inr (refl, h)
  after_round_ok (ok (some found)) rest run h = inl (ap (λ x. ok (some x)) (ok-injective _ _ h))

  wait_from-IsChecked :
      (t : Target) (deadline : ℕ) (polls : ℕ → Poll) (fuel n : ℕ) (run : Fields)
      → wait_from lower repo instant t deadline polls fuel n ≡ ok run
      → (k : ℕ) × IsChecked t deadline (polls k) run
  unfolding wait_from
  wait_from-IsChecked t deadline polls zero n run h = absurd (cc)
  wait_from-IsChecked t deadline polls (suc fuel) n run h =
      elim (after_round_ok (round lower repo instant t deadline (polls n)) _ run h) [
        | inl now ↦ (n, round-IsChecked t deadline (polls n) run now)
        | inr (_, later) ↦ wait_from-IsChecked t deadline polls fuel (suc n) run later
      ]

  -- When wait_for_executing_run returns a run, it is the answer of one poll in which it had the requested ID, check_execution and
  -- validate_run_provenance accepted it, it had no conclusion and was in progress, the release gate of the attempt
  -- had passed where a gate was asked for, and the clock had not reached the start plus 300 seconds.
  pub wait_for_executing_run-IsChecked :
      (t : Target) (start : ℕ) (polls : ℕ → Poll) (run : Fields)
      → wait_for_executing_run lower repo instant t start polls ≡ ok run
      → (k : ℕ) × IsChecked t (start + executing_run_wait) (polls k) run
  unfolding wait_for_executing_run
  wait_for_executing_run-IsChecked t start polls run h =
      wait_from-IsChecked t (start + executing_run_wait) polls 151 0 run h
