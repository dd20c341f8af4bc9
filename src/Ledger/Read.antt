-- ===== src/Ledger/Read.antt =====
-- `read_state` of scripts/release_state.py, and the JSON that `write_state` puts in the file.
pub mod Readable
pub mod RoundTrip
use inverter_gateway.Prelude.{
  ℕ, zero, suc, ◌+◌, ◌≤◌, Bool, true, false, not, Option, none, some, List, [], ◌∷◌, ◌++◌, ◌&&◌,
  ◌||◌, Text, codes, ◌=t◌, ◌==◌, ltb, leb, if◌then◌else◌, any, all, keep, map, max, maximum, show,
  read, strip_prefix, is_positive_numeral, String,
}
use inverter_gateway.Prelude.Result.{Result, ok, err, require, ◌>>=◌, ◌>>◌}
use inverter_gateway.Json.{Json, Fields, null, int, str, obj, field, end, get, as_obj, as_nat}
use inverter_gateway.Json.Equality.{py_eq}
use inverter_gateway.Plan.Patterns.{is_base, is_sha}
use inverter_gateway.Plan.Identity.{
  Channel, nightly, beta, rc, stable, channel_name, channel_of, Sequence, absent, count, stamp,
}
use inverter_gateway.Plan.Projection.{Plan}
use inverter_gateway.Plan.Create.{create_plan, validate_plan, to_json}
use inverter_gateway.Plan.Identity.Inversion.{sequence_json}
use inverter_gateway.Plan.Declared.{present}
use inverter_gateway.Ledger.Types.{
  Reservation, Ledger, empty, find, same_channel, Release, View, Content, Repository,
}

-- a key that `read_state` takes apart
abbrev pub without : List Text → Fields → Fields
without names end = end
without names (field k v fs) =
    if any (λ n. n =t k) names then without names fs else field k v (without names fs)

abbrev pub build_at_most : ℕ → Option ℕ → Result (Unit {0})
build_at_most counter none = err "'<=' not supported between NoneType and int"
build_at_most counter (some n) = require (leb n counter) "Ledger counter moved backwards"

abbrev pub as_object : Option Json → String → Result Fields
as_object (some (obj fs)) message = ok fs
as_object _ message = err message

abbrev pub as_number : Option Json → String → Result ℕ
as_number (some (int n)) message = ok n
as_number _ message = err message

module _ (valid_time : Text → Bool) (policy_sha256 : Json → Text) where
  -- one round of the loop over the plans
  unfoldable pub read_reservation : ℕ → Text → Json → Result Reservation
  read_reservation counter key record_json = do
    require (is_positive_numeral key) "Invalid ledger run ID"
    fields ← as_object (some record_json) "Invalid version reservation"
    j ← present (get fields (codes "plan")) "Release plan must be an object"
    plan ← validate_plan valid_time policy_sha256 j none none
    build_at_most counter plan.build_number
    ok (record {
      plan = plan;
      parent = get fields (codes "parent");
      extra = without (codes "plan" ∷ codes "parent" ∷ []) fields;
    })

  unfoldable pub read_plans : ℕ → Fields → Result (List (Text × Reservation))
  read_plans counter end = ok []
  read_plans counter (field key j fs) = do
    r ← read_reservation counter key j
    rest ← read_plans counter fs
    ok ((key, r) ∷ rest)

  -- the checks of `read_state` on the parsed JSON
  unfoldable pub decode_ledger : Json → Result Ledger
  decode_ledger j = do
    fields ← as_object (some j) "Unsupported version ledger schema"
    schema ← as_number (get fields (codes "schema")) "Unsupported version ledger schema"
    require (schema == 1) "Unsupported version ledger schema"
    counter ← as_number (get fields (codes "counter")) "Invalid ledger counter"
    floor ← as_number (get fields (codes "publication_floor")) "Invalid ledger publication floor"
    require (leb floor counter) "Invalid ledger publication floor"
    plan_fields ← as_object (get fields (codes "plans")) "Invalid ledger plans"
    plans ← read_plans counter plan_fields
    ok (record { counter = counter; publication_floor = floor; plans = plans })

  abbrev pub parsed : Option Json → Result Json
  parsed none = err "Invalid JSON in release version ledger"
  parsed (some j) = ok j

  unfoldable pub read_content : Content → Result (Ledger × Option Text)
  read_content c = do
    require c.regular "Ledger must be a regular JSON file"
    require (leb c.size 4_000_000) "Ledger requires compaction before another allocation"
    j ← parsed c.value
    state ← decode_ledger j
    require (is_sha c.sha) "Invalid ledger blob SHA"
    ok (state, some c.sha)

  -- `read_state`: the ledger and the identity of its blob
  unfoldable pub read_state : Option Content → Bool → Result (Ledger × Option Text)
  read_state none has_branch = do
    require (not has_branch)
        "Version ledger is missing from its existing branch; restore it from history"
    ok (empty, none)
  read_state (some c) has_branch = read_content c

-- the ledger's JSON
unfoldable pub with_parent : Option Json → Fields → Fields
with_parent none fs = fs
with_parent (some j) fs = field (codes "parent") j fs

unfoldable pub plans_json : List (Text × Reservation) → Fields
plans_json [] = end
plans_json ((key, r) ∷ rs) =
    field key (obj (field (codes "plan") (to_json r.plan) (with_parent r.parent r.extra)))
      (plans_json rs)

unfoldable pub encode_ledger : Ledger → Json
encode_ledger l = obj (
    field (codes "schema") (int 1) (
      field (codes "counter") (int l.counter) (
        field (codes "publication_floor") (int l.publication_floor)
          (field (codes "plans") (obj (plans_json l.plans)) end))))
