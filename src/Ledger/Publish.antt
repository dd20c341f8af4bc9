-- ===== src/Ledger/Publish.antt =====
-- `_verify_reservation`, `_verify_promotion_order`, their public forms and `begin_publication` of
-- scripts/release_state.py.
pub mod Order
pub mod Bounds
use inverter_gateway.Prelude.{
  ℕ, ◌+◌, Bool, true, false, not, Option, none, some, List, [], ◌∷◌, ◌&&◌, ◌||◌, Text, codes, ◌=t◌,
  ◌==◌, ltb, leb, if◌then◌else◌, any, show, String,
}
use inverter_gateway.Prelude.Result.{Result, ok, err, require, ◌>>=◌, ◌>>◌}
use inverter_gateway.Json.{Json, Fields, end}
use inverter_gateway.Json.Equality.{py_eq}
use inverter_gateway.Plan.Identity.{Channel, nightly, beta, rc, stable}
use inverter_gateway.Plan.Policy.{Promotion, promote_bytes, final_build, same_promotion}
use inverter_gateway.Plan.Projection.{Plan}
use inverter_gateway.Plan.Create.{validate_plan, to_json}
use inverter_gateway.Ledger.Types.{
  Reservation, Ledger, find, same_channel, same_plan, Release, View, Repository,
}
use inverter_gateway.Ledger.Read.{read_state, encode_ledger}
use inverter_gateway.Ledger.Sequence.{is_named}
use inverter_gateway.Ledger.Reserve.{write_state}

abbrev pub no_fields : Fields → Bool
no_fields end = true
no_fields _ = false

abbrev pub is_parent : Json → Option Json → Bool
is_parent parent none = false
is_parent parent (some j) = py_eq j parent

-- `record == {"plan": plan, "parent": parent}`
abbrev pub is_exactly : Plan → Json → Option Reservation → Bool
is_exactly plan parent none = false
is_exactly plan parent (some r) =
    same_plan r.plan plan && is_parent parent r.parent && no_fields r.extra

-- a build number in an arithmetic comparison; None raises TypeError there
abbrev pub number_of : Option ℕ → Result ℕ
number_of none = err "comparison not supported between NoneType and int"
number_of (some n) = ok n

-- `tag in published`
unfoldable pub is_published : Text → List Release → Bool
is_published tag releases = any (λ (r : Release). r.published && is_named tag r) releases

-- the numbers that the comprehension of `_verify_reservation` keeps: published, and not below
abbrev pub at_or_above : ℕ → Plan → Bool
at_or_above n p = elim p.build_number [ none ↦ false | some m ↦ leb n m ]

unfoldable pub newer_or_equal : ℕ → List Release → List (Text × Reservation) → Bool
newer_or_equal n releases [] = false
newer_or_equal n releases ((k, r) ∷ rs) =
    (is_published r.plan.tag releases && at_or_above n r.plan) || newer_or_equal n releases rs

abbrev pub strictly_above : ℕ → Plan → Bool
strictly_above n p = elim p.build_number [ none ↦ false | some m ↦ ltb n m ]

-- the list `newer` of `_verify_promotion_order` is not empty
unfoldable pub newer_than : ℕ → Text → List Release → List (Text × Reservation) → Bool
newer_than n tag releases [] = false
newer_than n tag releases ((k, r) ∷ rs) =
    (not (r.plan.tag =t tag) && is_published r.plan.tag releases && strictly_above n r.plan)
    || newer_than n tag releases rs

-- `len([... if record["plan"] == plan])`
unfoldable pub count_plan : Plan → List (Text × Reservation) → ℕ
count_plan plan [] = 0
count_plan plan ((k, r) ∷ rs) = (if same_plan r.plan plan then 1 else 0) + count_plan plan rs

module _ (valid_time : Text → Bool) (policy_sha256 : Json → Text) where
  unfoldable pub verify_reservation : View → Ledger → Plan → ℕ → Json → Result (Unit {0})
  verify_reservation v l plan run_id parent = do
    checked ← validate_plan valid_time policy_sha256 (to_json plan) none none
    require (ltb 0 run_id) "Invalid run ID"
    require (is_exactly plan parent (find (show run_id) l.plans))
        "Version reservation differs from build plan"
    number ← number_of plan.build_number
    require (ltb l.publication_floor number)
        "Build number has already reached or fallen below the publication floor"
    require (not (newer_or_equal number v.releases l.plans))
        "A package with this or a newer build number was already published"

  unfoldable pub verify_promotion_order : View → Ledger → Plan → Result (Unit {0})
  verify_promotion_order v l plan = do
    checked ← validate_plan valid_time policy_sha256 (to_json plan) none none
    require (same_channel plan.channel rc && same_promotion plan.promotion promote_bytes)
        "Byte promotion requires a promote-bytes RC plan"
    require (count_plan plan l.plans == 1) "Accepted RC has no unique durable version reservation"
    number ← number_of plan.build_number
    require (leb l.publication_floor number)
        "Accepted RC build number is below the publication floor"
    require (is_published plan.tag v.releases) "Accepted RC is no longer published"
    require (not (newer_than number plan.tag v.releases l.plans))
        "A newer native build was published after the accepted RC"

  -- the ledger that `begin_publication` writes, and the plan's number, which becomes the floor
  unfoldable pub publish_floor : View → Ledger → Plan → ℕ → Json → Bool → Result Ledger
  publish_floor v l plan run_id parent promotion = do
    (if promotion
        then verify_promotion_order v l plan
        else verify_reservation v l plan run_id parent)
    number ← number_of plan.build_number
    ok (record l { publication_floor = number })

module _ (valid_time : Text → Bool) (policy_sha256 : Json → Text) (github : Repository) where
  open github use {State, view, content}

  abbrev pub written : Ledger → Result (Unit {0}) × State → Result Ledger × State
  written l (ok _, s) = (ok l, s)
  written l (err e, s) = (err e, s)

  abbrev pub begin_from :
      State → Plan → ℕ → Json → Bool → Result (Ledger × Option Text) → Result Ledger × State
  begin_from s plan run_id parent promotion (err e) = (err e, s)
  begin_from s plan run_id parent promotion (ok (l, previous)) =
      elim (publish_floor valid_time policy_sha256 (view s) l plan run_id parent promotion) [
        | err e ↦ (err e, s)
        | ok l' ↦ written l' (write_state github s l' previous)
      ]

  -- `begin_publication`; its confirmation is the ledger that was written
  unfoldable pub begin_publication : State → Plan → ℕ → Json → Bool → Result Ledger × State
  begin_publication s plan run_id parent promotion =
      if ltb 0 run_id
      then begin_from s plan run_id parent promotion
          (read_state valid_time policy_sha256 (content s) (view s).has_branch)
      else (err "Invalid run ID", s)
