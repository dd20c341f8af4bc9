-- ===== src/Ledger/Reserve/Retry.antt =====
-- A retry of a run returns the plan that the run reserved.
use inverter_gateway.Prelude.{
  ℕ, Bool, true, none, some, List, [], ◌∷◌, ◌++◌, ◌≡◌, arith, Text, ◌=t◌, =t-self, show, Bool-cases,
  inl, inr,
}
use inverter_gateway.Prelude.Result.{ok}
use inverter_gateway.Json.{Json, end}
use inverter_gateway.Json.Equality.{py_eq}
use inverter_gateway.Plan.Patterns.{is_sha256}
use inverter_gateway.Plan.Identity.{channel_name}
use inverter_gateway.Plan.Identity.Inversion.{identity-Accepted}
use inverter_gateway.Plan.Projection.{Plan}
use inverter_gateway.Plan.Create.{to_json, validate_plan}
use inverter_gateway.Plan.Create.RoundTrip.{who_of}
use inverter_gateway.Plan.Create.Accepts.{validate_plan-create_plan}
use inverter_gateway.Plan.Create.BuildNumber.{create_plan-arguments}
use inverter_gateway.Ledger.Types.{Reservation, Ledger, find, View}
use inverter_gateway.Ledger.Reserve.{
  Request, earlier, fresh, add_plan, parent_or_null, repeat_reservation, decide,
}
use inverter_gateway.Ledger.Reserve.Fresh.{decide-IsFresh}

find-append :
    (k : Text) (rs : List (Text × Reservation)) (r : Reservation)
    → find k rs ≡ none
    → find k (rs ++ (k, r) ∷ []) ≡ some r
unfolding find
find-append k [] r h = rw (=t-self k)
find-append k ((j, s) ∷ rs) r h = elim (Bool-cases (j =t k)) [
  | inl hit ↦ absurd (ground (arith, hit, h))
  | inr miss ↦ rw miss (find-append k rs r (ground (arith, miss, h)))
]

find-kept :
    (k : Text) (rs more : List (Text × Reservation)) (r : Reservation)
    → find k rs ≡ some r
    → find k (rs ++ more) ≡ some r
unfolding find
find-kept k [] more r h = absurd (cc)
find-kept k ((j, s) ∷ rs) more r h = elim (Bool-cases (j =t k)) [
  | inl hit ↦ rw hit (ground (arith, hit, h))
  | inr miss ↦ rw miss (find-kept k rs more r (ground (arith, miss, h)))
]

module _ (valid_time : Text → Bool) (policy_sha256 : Json → Text) where
  repeat-same :
      (q : Request) (r : Reservation) (p : Plan)
      → validate_plan valid_time policy_sha256 (to_json r.plan) (some q.policy) (some q.source_sha)
        ≡ ok p
      → (p.base_version =t q.base) ≡ true
      → (channel_name p.channel =t q.channel) ≡ true
      → py_eq (parent_or_null r.parent) q.parent ≡ true
      → repeat_reservation valid_time policy_sha256 q r ≡ ok (earlier p)
  unfolding repeat_reservation
  repeat-same q r p hv hb hc hp = rw (hv, hb, hc, hp)

module _ (valid_time : Text → Bool) (policy_sha256 : Json → Text)
    (hex : (j : Json) → is_sha256 (policy_sha256 j) ≡ true) where
  -- Once a run has reserved a plan, any later attempt of it at any time, with the same policy,
  -- base version, channel and commit and a parent equal to the reserved one, gets the same plan
  -- and decides on no write, whatever the repository holds by then and whatever plans other
  -- runs have added to the ledger since, where a policy digest is 64 lowercase hexadecimal
  -- digits.
  pub decide-retry :
      (v v' : View) (l l' later : Ledger) (q : Request) (p : Plan) (attempt : ℕ) (now : Text)
      (parent : Json) (more : List (Text × Reservation))
      → decide valid_time policy_sha256 v l q ≡ ok (fresh p l')
      → later.plans ≡ l'.plans ++ more
      → py_eq q.parent parent ≡ true
      → decide valid_time policy_sha256 v' later
          (record q { attempt = attempt; now = now; parent = parent })
        ≡ ok (earlier p)
  unfolding decide add_plan
  decide-retry v v' l l' later q p attempt now parent more h since same =
      let f = decide-IsFresh valid_time policy_sha256 v l q p l' h in
      let (made, _) = create_plan-arguments valid_time policy_sha256 _ _ _ _ _ _ p f.created in
      let a = identity-Accepted valid_time _ _ _ (who_of p) made in
      let base : p.base_version ≡ q.base = cc (a.base_given) in
      let channel : channel_name p.channel ≡ q.channel = cc (a.channel_given) in
      let r : Reservation = record { plan = p; parent = some q.parent; extra = end } in
      let reserved = find-append (show q.run_id) l.plans r f.unused in
      rw (since, f.written)
        (rw (find-kept (show q.run_id) (l.plans ++ (show q.run_id, r) ∷ []) more r reserved) (
          repeat-same valid_time policy_sha256 _ r p
            (validate_plan-create_plan valid_time policy_sha256 hex _ _ _ q.policy _ q.source_sha p
              f.created)
            (rw base (=t-self q.base)) (rw channel (=t-self q.channel)) same))
