-- ===== src/Ledger/Read/RoundTrip.antt =====
-- The JSON of a ledger is read back as the ledger.
use inverter_gateway.Prelude.{
  ℕ, Bool, true, false, Option, none, some, List, [], ◌∷◌, ◌≡◌, refl, subst, Text, codes, ◌=t◌,
  =t→eq, any, le→leb, Bool-cases, inl, inr,
}
use inverter_gateway.Prelude.Result.{ok}
use inverter_gateway.Json.{Json, Fields, obj, end, field, get}
use inverter_gateway.Plan.Projection.{Plan}
use inverter_gateway.Plan.Create.{to_json, validate_plan, bind_policy, bind_source}
use inverter_gateway.Plan.Create.RoundTrip.{IsFrozen, plan_shape-to_fields}
use inverter_gateway.Ledger.Types.{Reservation, Ledger}
use inverter_gateway.Ledger.Read.{
  without, with_parent, plans_json, encode_ledger, build_at_most, read_reservation, read_plans,
  decode_ledger,
}
use inverter_gateway.Ledger.Read.Readable.{
  taken, AtMost, IsReadableEntry, ReadablePlans, IsReadable,
}

get-without :
    (names : List Text) (fs : Fields) (k : Text)
    → any (λ n. n =t k) names ≡ true
    → get (without names fs) k ≡ none
unfolding get
get-without names end k h = refl
get-without names (field j v fs) k h = elim (Bool-cases (any (λ n. n =t j) names)) [
  | inl hit ↦ rw hit (get-without names fs k h)
  | inr miss ↦ elim (Bool-cases (j =t k)) [
    | inl same ↦ absurd (cc (subst (λ x. any (λ n. n =t x) names ≡ false) (=t→eq j k same) miss, h))
    | inr other ↦ rw (miss, other) (get-without names fs k h)
  ]
]

no_parent : (extra : Fields) → without taken extra ≡ extra → get extra (codes "parent") ≡ none
no_parent extra clean =
    subst (λ fs. get fs (codes "parent") ≡ none) clean
      (get-without taken extra (codes "parent") (unfold ◌=t◌ in refl))

build_at_most-ok :
    (counter : ℕ) (build : Option ℕ) → AtMost counter build → build_at_most counter build ≡ ok tt
build_at_most-ok counter build a = rw a.is (rw (le→leb a.number counter a.within))

module _ (valid_time : Text → Bool) (policy_sha256 : Json → Text) where
  validate_plan-frozen :
      (p : Plan)
      → IsFrozen valid_time p
      → validate_plan valid_time policy_sha256 (to_json p) none none ≡ ok p
  unfolding validate_plan to_json bind_policy bind_source
  validate_plan-frozen p f = rw (plan_shape-to_fields valid_time p f)

  read_reservation-parts :
      (counter : ℕ) (key : Text) (p : Plan) (parent : Option Json) (extra : Fields)
      → IsReadableEntry valid_time counter key (record { plan = p; parent = parent; extra = extra })
      → read_reservation valid_time policy_sha256 counter key
          (obj (field (codes "plan") (to_json p) (with_parent parent extra)))
        ≡ ok (record { plan = p; parent = parent; extra = extra })
  unfolding read_reservation with_parent get ◌=t◌
  read_reservation-parts counter key p none extra e = rw (
    e.numeral,
    validate_plan-frozen p e.frozen,
    build_at_most-ok counter p.build_number e.numbered,
    e.clean,
    no_parent extra e.clean,
  )
  read_reservation-parts counter key p (some j) extra e = rw (
    e.numeral,
    validate_plan-frozen p e.frozen,
    build_at_most-ok counter p.build_number e.numbered,
    e.clean,
  )

  read_plans-plans_json :
      (counter : ℕ) (rs : List (Text × Reservation))
      → ReadablePlans valid_time counter rs
      → read_plans valid_time policy_sha256 counter (plans_json rs) ≡ ok rs
  unfolding read_plans plans_json
  read_plans-plans_json counter [] h = refl
  read_plans-plans_json counter ((key, r) ∷ rs) (h, hs) = rw (
    read_reservation-parts counter key r.plan r.parent r.extra h,
    read_plans-plans_json counter rs hs,
  )

  -- The JSON of a readable ledger is decoded as that ledger.
  pub decode_ledger-encode_ledger :
      (l : Ledger)
      → IsReadable valid_time l
      → decode_ledger valid_time policy_sha256 (encode_ledger l) ≡ ok l
  unfolding decode_ledger encode_ledger get ◌=t◌
  decode_ledger-encode_ledger l h = rw (
    le→leb l.publication_floor l.counter h.floor_le,
    read_plans-plans_json l.counter l.plans h.entries,
  )
