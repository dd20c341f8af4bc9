-- ===== src/Examples/Ledgers.antt =====
-- A run that reserves the first plan of a repository, and one step of that repository.
use inverter_gateway.Prelude.{
  Bool, true, false, Option, none, some, [], ◌∷◌, ◌≡◌, refl, sym, ap, arith, Text, codes,
}
use native.Mathlib.Decide.{ℕ_discrete}
use inverter_gateway.Prelude.Result.{ok}
use inverter_gateway.Json.{Json, null, end}
use inverter_gateway.Json.Equality.{py_eq}
use inverter_gateway.Ledger.Types.{Reservation, Ledger, empty, find, View, Content, Repository}
use inverter_gateway.Ledger.Read.{read_state, encode_ledger, plans_json, with_parent}
use inverter_gateway.Ledger.Sequence.{ensure_absent, sequence_numbers, next_sequence}
use inverter_gateway.Ledger.Reserve.{
  Request, fresh, reserved, counted, new_sequence, policy_floor, add_plan, repeat_reservation,
  new_reservation, decide,
}
use inverter_gateway.Ledger.Reserve.Invariant.{IsWell}
use inverter_gateway.Ledger.Concurrent.{blob, IsContentsApi, Step, reserves}
use inverter_gateway.Examples.Values.{
  any_time, sample_sha, fixed_digest, sample_policy, sample_plan, plan_code,
}

unfoldable pub ledger_code : Unit {0}
unfolding find ensure_absent sequence_numbers next_sequence reserved counted new_sequence
    policy_floor add_plan repeat_reservation new_reservation decide read_state encode_ledger
    plans_json with_parent py_eq
ledger_code = tt

abbrev pub sample_request : Request
sample_request = record {
  policy = sample_policy;
  base = codes "1.2.0";
  channel = codes "rc";
  source_sha = sample_sha;
  run_id = 7;
  attempt = 1;
  now = codes "20260101000000";
  parent = null;
}

abbrev pub sample_view : View
sample_view = record {
  tags = codes "v1.1.0" ∷ codes "v1.2.0-rc.1" ∷ [];
  releases = record { tag_name = some (codes "v1.2.0-rc.1"); published = true } ∷ [];
  has_tag = λ t. false;
  has_release = λ t. false;
  has_branch = false;
}

abbrev pub sample_reservation : Reservation
sample_reservation = record { plan = sample_plan; parent = some null; extra = end }

abbrev pub sample_ledger : Ledger
sample_ledger = record {
  counter = 11;
  publication_floor = 0;
  plans = (codes "7", sample_reservation) ∷ [];
}

pub sample_decided :
    decide any_time fixed_digest sample_view empty sample_request
    ≡ ok (fresh sample_plan sample_ledger)
unfolding plan_code ledger_code
sample_decided = refl

pub Json-discrete : Discrete Json
Json-discrete = hlevel ℕ_discrete

-- The bytes that the first write puts in the file.
abbrev first_json : Json
first_json = encode_ledger sample_ledger

abbrev pub first_content : Content
first_content = record { regular = true; size = 400; value = some first_json; sha = sample_sha }

abbrev accepted : {j : Json} → Dec (j ≡ first_json) → Option Bool
accepted (yes e) = some true
accepted (no n) = none

-- Nothing is in the file, or the first ledger is: the state says which.
abbrev first_put : Bool → Json → Option Text → Option Bool
first_put false j none = accepted (Json-discrete j first_json)
first_put false j (some s) = none
first_put true j previous = none

abbrev first_held : Bool → Option Content
first_held false = none
first_held true = some first_content

-- A repository that takes one write of one ledger.
abbrev pub small_repository : Repository
small_repository = record {
  State = Bool;
  view = λ s. sample_view;
  content = first_held;
  put = first_put;
  create_branch = λ s t. some s;
}

accepted-eq :
    {j : Json} (d : Dec (j ≡ first_json)) (s : Bool)
    → accepted d ≡ some s
    → (s ≡ true) × (j ≡ first_json)
accepted-eq (yes e) s h = (cc, e)
accepted-eq (no n) s h = absurd (cc)

accepted_self : (d : Dec (first_json ≡ first_json)) → accepted d ≡ some true
accepted_self (yes e) = refl
accepted_self (no n) = absurd (n refl)

first_compares :
    (s s' : Bool) (j : Json) (previous : Option Text)
    → first_put s j previous ≡ some s'
    → previous ≡ blob (first_held s)
first_compares false s' j none h = refl
first_compares false s' j (some b) h = absurd (cc)
first_compares true s' j previous h = absurd (cc)

first_stores :
    (s s' : Bool) (j : Json) (previous : Option Text)
    → first_put s j previous ≡ some s'
    → (c : Content) × (first_held s' ≡ some c) × (c.value ≡ some j)
first_stores false s' j none h =
    let (written, same) = accepted-eq (Json-discrete j first_json) s' h in
    (first_content, ap first_held written, ap some (sym same))
first_stores false s' j (some b) h = absurd (cc)
first_stores true s' j previous h = absurd (cc)

first_identifies :
    (s t : Bool) (c d : Content)
    → first_held s ≡ some c
    → first_held t ≡ some d
    → c.sha ≡ d.sha
    → c.value ≡ d.value
first_identifies false t c d h k e = absurd (cc)
first_identifies true false c d h k e = absurd (cc)
first_identifies true true c d h k e =
    let same : c ≡ d = cc (h, k) in ap (λ (x : Content). x.value) same

pub small_repository-IsContentsApi : IsContentsApi small_repository
small_repository-IsContentsApi = record {
  compares = first_compares;
  stores = first_stores;
  identifies = first_identifies;
}

pub first_write : small_repository.put false (encode_ledger sample_ledger) none ≡ some true
first_write = accepted_self (Json-discrete first_json first_json)

pub first_read :
    read_state any_time fixed_digest (small_repository.content false) sample_view.has_branch
    ≡ ok (empty, none)
unfolding ledger_code
first_read = refl

pub first-Step : Step any_time fixed_digest small_repository false true
first-Step =
    reserves false false true sample_request empty sample_ledger none sample_plan (omega arith)
      first_read sample_decided first_write

pub empty-IsWell : IsWell any_time empty
empty-IsWell = record { readable = record { floor_le = omega arith; entries = tt }; distinct = tt }
