-- ===== src/Runs/Wait/Deadline.antt =====
-- The loop of `wait_for_executing_run` of scripts/release_control.py ends: every round sleeps two seconds, or what is
-- left to the deadline.
use inverter_gateway.Prelude.{
  ℕ, zero, suc, ◌+◌, ◌*◌, ◌-◌, ◌<◌, ◌≤◌, min, Bool, true, false, Option, none, some, ◌≡◌, refl,
  arith, Text, codes, ltb, ltb→lt,
}
use inverter_gateway.Prelude.Result.{Result, ok, err, bind_ok, guard_ok}
use inverter_gateway.Json.{Fields, get}
use inverter_gateway.Runs.Gate.{is_active}
use inverter_gateway.Runs.Wait.{
  Poll, Target, second, executing_run_wait, is_ready, bound_run, go_on, finish, round, after_round,
  wait_from,
}

-- The clock after a wait: `time.sleep(min(2, remaining))` sleeps at least as long as it is told to.
abbrev pub Advances : ℕ → (ℕ → Poll) → Type 0
Advances deadline polls =
    (n : ℕ)
    → (polls n).waits_at + min (2 * second) (deadline - (polls n).waits_at)
      ≤ (polls (suc n)).waits_at

finish-none :
    (deadline : ℕ) (p : Poll) (run : Fields) (ready : Bool)
    → finish deadline p run ready ≡ ok none
    → p.waits_at < deadline
unfolding finish go_on
finish-none deadline p run true h = guard_ok (ltb p.ready_at deadline) _ _ h λ _ h1. absurd (cc)
finish-none deadline p run false h =
    guard_ok (is_active (get run (codes "status"))) _ _ h λ _ h1.
      guard_ok (ltb p.waits_at deadline) _ _ h1 λ before _. ltb→lt p.waits_at deadline before

after_round-eq :
    (r : Result (Option Fields)) (x y : Result Fields)
    → ((r ≡ ok none) → x ≡ y)
    → after_round r x ≡ after_round r y
after_round-eq (err e) x y h = refl
after_round-eq (ok none) x y h = h refl
after_round-eq (ok (some run)) x y h = refl

module _ (lower : Text → Text) (repo : Text) (instant : Text → Option ℕ) where
  round-none :
      (t : Target) (deadline : ℕ) (p : Poll)
      → round lower repo instant t deadline p ≡ ok none
      → p.waits_at < deadline
  unfolding round
  round-none t deadline p h = bind_ok (bound_run lower repo instant t p) _ h λ run _ h1.
      bind_ok (is_ready lower repo instant t p run) _ h1
        λ ready _ h2. finish-none deadline p run ready h2

  wait_from_rounds :
      (t : Target) (deadline : ℕ) (polls : ℕ → Poll)
      → Advances deadline polls
      → (left f g n : ℕ) → deadline ≤ (polls n).waits_at + left * (2 * second)
      → left < f
      → left < g
      → wait_from lower repo instant t deadline polls f n
        ≡ wait_from lower repo instant t deadline polls g n
  unfolding wait_from
  wait_from_rounds t deadline polls adv left zero g n near hf hg = absurd (omega (arith, hf))
  wait_from_rounds t deadline polls adv left (suc f) zero n near hf hg = absurd (omega (arith, hg))
  wait_from_rounds t deadline polls adv zero (suc f) (suc g) n near hf hg =
      after_round-eq (round lower repo instant t deadline (polls n)) _ _
        λ waits. absurd (omega (arith, round-none t deadline (polls n) waits, near))
  wait_from_rounds t deadline polls adv (suc left) (suc f) (suc g) n near hf hg =
      after_round-eq (round lower repo instant t deadline (polls n)) _ _ λ waits.
        wait_from_rounds t deadline polls adv left f g (suc n)
          (omega (arith, round-none t deadline (polls n) waits, near, adv n)) (omega (arith, hf))
          (omega (arith, hg))

  -- When every wait moves the clock by two seconds or to the deadline of 300 seconds after the start, any number of rounds above
  -- 150 gives the answer that any other gives: the loop of wait_for_executing_run has ended by then.
  pub wait_from-fuel :
      (t : Target) (start f g : ℕ) (polls : ℕ → Poll)
      → Advances (start + executing_run_wait) polls
      → start ≤ (polls 0).waits_at
      → 150 < f
      → 150 < g
      → wait_from lower repo instant t (start + executing_run_wait) polls f 0
        ≡ wait_from lower repo instant t (start + executing_run_wait) polls g 0
  wait_from-fuel t start f g polls adv begins hf hg =
      wait_from_rounds t (start + executing_run_wait) polls adv 150 f g 0 (omega (arith, begins)) hf
        hg
