-- ===== src/Ledger/Read/Readable.antt =====
-- What `read_state` accepts: the conditions on a ledger under which its JSON is read back.
use inverter_gateway.Prelude.{
  ℕ, ◌≤◌, Bool, true, Option, none, some, List, [], ◌∷◌, ◌≡◌, refl, ap, subst, arith, Text, codes,
  ◌=t◌, any, leb, leb→le, Bool-cases, inl, inr, is_positive_numeral, ◌==◌,
}
use inverter_gateway.Prelude.Result.{ok, bind_ok, guard_ok, ok-injective}
use inverter_gateway.Json.{Json, Fields, end, field, get}
use inverter_gateway.Plan.Declared.{present}
use inverter_gateway.Plan.Create.{validate_plan}
use inverter_gateway.Plan.Create.RoundTrip.{IsFrozen}
use inverter_gateway.Plan.Create.Sound.{validate_plan-IsFrozen}
use inverter_gateway.Ledger.Types.{Reservation, Ledger}
use inverter_gateway.Ledger.Read.{
  without, build_at_most, as_object, as_number, read_reservation, read_plans, decode_ledger,
}

abbrev pub taken : List Text
taken = codes "plan" ∷ codes "parent" ∷ []

without-without :
    (names : List Text) (fs : Fields) → without names (without names fs) ≡ without names fs
without-without names end = refl
without-without names (field k v fs) = elim (Bool-cases (any (λ n. n =t k) names)) [
  | inl hit ↦ rw hit (without-without names fs)
  | inr miss ↦ rw (miss, miss) (ap (field k v) (without-without names fs))
]

-- A number that is at most the counter.
pub record AtMost (counter : ℕ) (build : Option ℕ) : Type 0 where
  pub number : ℕ
  pub is : build ≡ some number
  pub within : number ≤ counter

module _ (valid_time : Text → Bool) where
  pub record IsReadableEntry (counter : ℕ) (key : Text) (r : Reservation) : Type 0 where
    pub numeral : is_positive_numeral key ≡ true
    pub frozen : IsFrozen valid_time r.plan
    pub numbered : AtMost counter r.plan.build_number
    pub clean : without taken r.extra ≡ r.extra

  abbrev pub ReadablePlans : ℕ → List (Text × Reservation) → Type 0
  ReadablePlans counter [] = Unit
  ReadablePlans counter ((key, r) ∷ rs) = IsReadableEntry counter key r × ReadablePlans counter rs

  pub record IsReadable (l : Ledger) : Type 0 where
    pub floor_le : l.publication_floor ≤ l.counter
    pub entries : ReadablePlans l.counter l.plans

build_at_most-AtMost :
    (counter : ℕ) (build : Option ℕ) (u : Unit {0})
    → build_at_most counter build ≡ ok u
    → AtMost counter build
build_at_most-AtMost counter none u h = absurd (cc)
build_at_most-AtMost counter (some n) u h = record { number = n; is = refl; within = ground arith }

module _ (valid_time : Text → Bool) (policy_sha256 : Json → Text) where
  read_reservation-Readable :
      (counter : ℕ) (key : Text) (j : Json) (r : Reservation)
      → read_reservation valid_time policy_sha256 counter key j ≡ ok r
      → IsReadableEntry valid_time counter key r
  unfolding read_reservation
  read_reservation-Readable counter key j r h = guard_ok (is_positive_numeral key) _ _ h λ hk h1.
      bind_ok (as_object (some j) _) _ h1 λ fields hf h2.
        bind_ok (present (get fields (codes "plan")) _) _ h2 λ pj hp h3.
          bind_ok (validate_plan valid_time policy_sha256 pj none none) _ h3 λ plan hv h4.
            bind_ok (build_at_most counter plan.build_number) _ h4 λ u hb h5.
              subst (IsReadableEntry valid_time counter key) (ok-injective _ _ h5) (record {
                numeral = hk;
                frozen = validate_plan-IsFrozen valid_time policy_sha256 pj none none plan hv;
                numbered = build_at_most-AtMost counter plan.build_number u hb;
                clean = without-without taken fields;
              })

  read_plans-Readable :
      (counter : ℕ) (fs : Fields) (rs : List (Text × Reservation))
      → read_plans valid_time policy_sha256 counter fs ≡ ok rs
      → ReadablePlans valid_time counter rs
  unfolding read_plans
  read_plans-Readable counter end rs h =
      subst (ReadablePlans valid_time counter) (ok-injective _ _ h) tt
  read_plans-Readable counter (field key j fs) rs h =
      bind_ok (read_reservation valid_time policy_sha256 counter key j) _ h λ r hr h1.
        bind_ok (read_plans valid_time policy_sha256 counter fs) _ h1 λ rest hs h2.
          subst (ReadablePlans valid_time counter) (ok-injective _ _ h2)
            (read_reservation-Readable counter key j r hr, read_plans-Readable counter fs rest hs)

  -- An accepted ledger has its floor within its counter, and each of its plans is frozen and has
  -- a build number within the counter.
  pub decode_ledger-IsReadable :
      (j : Json) (l : Ledger)
      → decode_ledger valid_time policy_sha256 j ≡ ok l
      → IsReadable valid_time l
  unfolding decode_ledger
  decode_ledger-IsReadable j l h = bind_ok (as_object (some j) _) _ h λ fields h0 h1.
      bind_ok (as_number (get fields (codes "schema")) _) _ h1 λ schema h2 h3.
        guard_ok (schema == 1) _ _ h3 λ h4 h5.
          bind_ok (as_number (get fields (codes "counter")) _) _ h5 λ counter h6 h7.
            bind_ok (as_number (get fields (codes "publication_floor")) _) _ h7 λ floor h8 h9.
              guard_ok (leb floor counter) _ _ h9 λ hf h10.
                bind_ok (as_object (get fields (codes "plans")) _) _ h10 λ plan_fields h11 h12.
                  bind_ok (read_plans valid_time policy_sha256 counter plan_fields) _ h12
                    λ plans hp h13. subst (IsReadable valid_time) (ok-injective _ _ h13) (record {
                      floor_le = leb→le floor counter hf;
                      entries = read_plans-Readable counter plan_fields plans hp;
                    })
