-- ===== src/Ledger/Reserve.antt =====
-- `reserve_plan` of scripts/release_state.py. A function that writes returns its result beside the
-- state of the repository that it left.
pub mod Fresh
pub mod Invariant
pub mod Tags
pub mod Retry
use inverter_gateway.Prelude.{
  ℕ, zero, suc, ◌+◌, ◌≤◌, Bool, true, false, not, Option, none, some, List, [], ◌∷◌, ◌++◌, ◌&&◌,
  ◌||◌, Text, codes, ◌=t◌, ◌==◌, ltb, leb, if◌then◌else◌, any, all, keep, map, max, maximum, show,
  read, strip_prefix, is_positive_numeral, String,
}
use inverter_gateway.Prelude.Result.{Result, ok, err, require, ◌>>=◌, ◌>>◌}
use inverter_gateway.Json.{Json, Fields, null, int, str, obj, field, end, get, as_obj, as_nat}
use inverter_gateway.Json.Equality.{py_eq}
use inverter_gateway.Plan.Patterns.{is_base, is_sha}
use inverter_gateway.Plan.Identity.{
  Channel, nightly, beta, rc, stable, channel_name, channel_of, Sequence, absent, count, stamp,
}
use inverter_gateway.Plan.Projection.{Plan}
use inverter_gateway.Plan.Create.{create_plan, validate_plan, to_json}
use inverter_gateway.Plan.Identity.Inversion.{sequence_json}
use inverter_gateway.Plan.Declared.{present}
use inverter_gateway.Ledger.Types.{
  Reservation, Ledger, empty, find, same_channel, Release, View, Content, Repository,
}
use inverter_gateway.Ledger.Read.{read_state, encode_ledger, as_object}
use inverter_gateway.Ledger.Sequence.{ensure_absent, next_sequence}

-- The arguments of `reserve_plan`; `now` is the run's time as `%Y%m%d%H%M%S`, and `parent` is null
-- where there is none.
pub record Request : Type 0 where
  pub policy : Json
  pub base : Text
  pub channel : Text
  pub source_sha : Text
  pub run_id : ℕ
  pub attempt : ℕ
  pub now : Text
  pub parent : Json

-- An earlier reservation of the same run, or a new plan and the ledger to write.
pub data Outcome : Type 0 where
  earlier : Plan → Outcome
  fresh : Plan → Ledger → Outcome

abbrev pub sequence_number : Sequence → List ℕ
sequence_number (count n) = n ∷ []
sequence_number _ = []

-- the sequences that the ledger holds for a base version and a channel
unfoldable pub reserved : Text → Channel → List (Text × Reservation) → List ℕ
reserved base channel [] = []
reserved base channel ((key, r) ∷ rs) =
    if r.plan.base_version =t base && same_channel r.plan.channel channel
    then sequence_number r.plan.sequence ++ reserved base channel rs
    else reserved base channel rs

unfoldable pub counted : View → Ledger → Text → Channel → Result Json
counted v l base channel = do
  sequence ← next_sequence v base channel
  ok (int (max sequence (maximum (reserved base channel l.plans) + 1)))

unfoldable pub new_sequence : View → Ledger → Request → Option Channel → Result Json
new_sequence v l q (some beta) = counted v l q.base beta
new_sequence v l q (some rc) = counted v l q.base rc
new_sequence v l q (some nightly) =
    ok (str (q.now ++ codes "." ++ show q.run_id ++ codes "." ++ show q.attempt))
new_sequence v l q _ = ok null

abbrev pub floor_of : Option Json → Result ℕ
floor_of none = ok 0
floor_of (some (int n)) = ok n
floor_of _ = err "Invalid native build counter floor"

-- `policy["versioning"].get("build_number_floor", 0)`
unfoldable pub policy_floor : Json → Result ℕ
policy_floor policy = do
  fields ← as_object (some policy) "Policy must be an object"
  config ← as_object (get fields (codes "versioning")) "versioning"
  floor_of (get config (codes "build_number_floor"))

-- `record.get("parent")`
abbrev pub parent_or_null : Option Json → Json
parent_or_null none = null
parent_or_null (some j) = j

-- `state["counter"] = number` and the new entry of `state["plans"]`
unfoldable pub add_plan : Ledger → ℕ → Text → Plan → Json → Ledger
add_plan l number key plan parent = record l {
  counter = number;
  plans = l.plans ++ (key, record { plan = plan; parent = some parent; extra = end }) ∷ [];
}

module _ (valid_time : Text → Bool) (policy_sha256 : Json → Text) where
  -- the branch for a run that has a reservation
  unfoldable pub repeat_reservation : Request → Reservation → Result Outcome
  repeat_reservation q r = do
    plan ←
        validate_plan valid_time policy_sha256 (to_json r.plan) (some q.policy) (some q.source_sha)
    require (plan.base_version =t q.base && channel_name plan.channel =t q.channel)
        "Run already reserved a different release identity"
    require (py_eq (parent_or_null r.parent) q.parent) "Run already reserved a different RC"
    ok (earlier plan)

  unfoldable pub new_reservation : View → Ledger → Request → Text → Result Outcome
  new_reservation v l q key = do
    sequence ← new_sequence v l q (channel_of q.channel)
    floor ← policy_floor q.policy
    let number = max l.counter floor + 1
    plan ←
        create_plan valid_time policy_sha256 (str q.base) (str q.channel) sequence
          (str q.source_sha) q.policy (int number)
    ensure_absent v plan.tag
    ok (fresh plan (add_plan l number key plan q.parent))

  abbrev pub by_key : View → Ledger → Request → Text → Option Reservation → Result Outcome
  by_key v l q key (some r) = repeat_reservation q r
  by_key v l q key none = new_reservation v l q key

  -- what `reserve_plan` decides from the ledger and the repository that it read
  unfoldable pub decide : View → Ledger → Request → Result Outcome
  decide v l q = by_key v l q (show q.run_id) (find (show q.run_id) l.plans)

module _ (github : Repository) where
  open github use {State, view, put, create_branch}

  -- `write_state`; a refused write raises
  unfoldable pub write_state : State → Ledger → Option Text → Result (Unit {0}) × State
  write_state s l previous = elim (put s (encode_ledger l) previous) [
    | none ↦ (err "GitHub refused the ledger write", s)
    | some s' ↦ (ok tt, s')
  ]

  abbrev pub answer : Plan → Result (Unit {0}) × State → Result Plan × State
  answer plan (ok _, s) = (ok plan, s)
  answer plan (err e, s) = (err e, s)

  unfoldable pub write_fresh : State → Plan → Ledger → Option Text → Result Plan × State
  write_fresh s plan l previous = answer plan (write_state s l previous)

  -- the branch is created where it is missing, then the ledger is written
  unfoldable pub commit : State → Request → Plan → Ledger → Option Text → Result Plan × State
  commit s q plan l previous =
      if (view s).has_branch
      then write_fresh s plan l previous
      else elim (create_branch s q.source_sha) [
        | none ↦ (err "GitHub refused the ledger branch", s)
        | some s' ↦ write_fresh s' plan l previous
      ]

  abbrev pub finish : State → Request → Option Text → Result Outcome → Result Plan × State
  finish s q previous (err e) = (err e, s)
  finish s q previous (ok (earlier plan)) = (ok plan, s)
  finish s q previous (ok (fresh plan l)) = commit s q plan l previous

module _ (valid_time : Text → Bool) (policy_sha256 : Json → Text) (github : Repository) where
  open github use {State, view, content}

  abbrev pub from_ledger : State → Request → Result (Ledger × Option Text) → Result Plan × State
  from_ledger s q (err e) = (err e, s)
  from_ledger s q (ok (l, previous)) =
      finish github s q previous (decide valid_time policy_sha256 (view s) l q)

  -- `reserve_plan`
  unfoldable pub reserve_plan : State → Request → Result Plan × State
  reserve_plan s q =
      if ltb 0 q.run_id
      then from_ledger s q (read_state valid_time policy_sha256 (content s) (view s).has_branch)
      else (err "Invalid run ID", s)
