-- ===== src/Ledger/Reserve/Invariant.antt =====
-- The ledger's invariant, and that a new reservation keeps it.
use inverter_gateway.Prelude.{
  ℕ, ◌+◌, ◌≤◌, ◌<◌, Bool, true, some, List, [], ◌∷◌, ◌++◌, ◌≡◌, ◌≢◌, refl, sym, subst, arith, Text,
  max, show, is_positive_numeral-show,
}
use inverter_gateway.Json.{Json}
use inverter_gateway.Plan.Patterns.{is_sha256}
use inverter_gateway.Plan.Projection.{Plan}
use inverter_gateway.Plan.Create.Accepts.{create_plan-IsFrozen}
use inverter_gateway.Plan.Create.BuildNumber.{create_plan-build_number}
use inverter_gateway.Ledger.Types.{Reservation, Ledger, View}
use inverter_gateway.Ledger.Read.Readable.{AtMost, IsReadableEntry, ReadablePlans, IsReadable}
use inverter_gateway.Ledger.Reserve.{Request, add_plan}
use inverter_gateway.Ledger.Reserve.Fresh.{IsFresh}

-- No plan of the list has the build number of the reservation.
abbrev pub Apart : Reservation → List (Text × Reservation) → Type 0
Apart r [] = Unit
Apart r ((k, s) ∷ rs) = (r.plan.build_number ≢ s.plan.build_number) × Apart r rs

abbrev pub DistinctBuilds : List (Text × Reservation) → Type 0
DistinctBuilds [] = Unit
DistinctBuilds ((k, r) ∷ rs) = Apart r rs × DistinctBuilds rs

module _ (valid_time : Text → Bool) where
  ReadablePlans-mono :
      (c d : ℕ) (rs : List (Text × Reservation))
      → c ≤ d
      → ReadablePlans valid_time c rs
      → ReadablePlans valid_time d rs
  ReadablePlans-mono c d [] le h = tt
  ReadablePlans-mono c d ((k, r) ∷ rs) le (h, hs) = (
    record {
      numeral = h.numeral;
      frozen = h.frozen;
      numbered = record {
        number = h.numbered.number;
        is = h.numbered.is;
        within = omega (arith, h.numbered.within);
      };
      clean = h.clean;
    },
    ReadablePlans-mono c d rs le hs,
  )

  ReadablePlans-append :
      (c : ℕ) (rs : List (Text × Reservation)) (k : Text) (r : Reservation)
      → ReadablePlans valid_time c rs
      → IsReadableEntry valid_time c k r
      → ReadablePlans valid_time c (rs ++ (k, r) ∷ [])
  ReadablePlans-append c [] k r hs h = (h, tt)
  ReadablePlans-append c ((j, s) ∷ rs) k r (g, gs) h = (g, ReadablePlans-append c rs k r gs h)

  Apart-append :
      (c n : ℕ) (s : Reservation) (rs : List (Text × Reservation)) (k : Text) (r : Reservation)
      → AtMost c s.plan.build_number
      → r.plan.build_number ≡ some n
      → c < n
      → Apart s rs
      → Apart s (rs ++ (k, r) ∷ [])
  Apart-append c n s [] k r a e lt h = (λ same. differs a same, tt)
    where
      differs : AtMost c s.plan.build_number → s.plan.build_number ≡ r.plan.build_number → ⊥
      differs b same = ground (arith, b.is, b.within)
  Apart-append c n s ((j, t) ∷ rs) k r a e lt (h, hs) = (h, Apart-append c n s rs k r a e lt hs)

  -- A number above the counter is new.
  DistinctBuilds-append :
      (c n : ℕ) (rs : List (Text × Reservation)) (k : Text) (r : Reservation)
      → ReadablePlans valid_time c rs
      → r.plan.build_number ≡ some n
      → c < n
      → DistinctBuilds rs
      → DistinctBuilds (rs ++ (k, r) ∷ [])
  DistinctBuilds-append c n [] k r hs e lt d = (tt, tt)
  DistinctBuilds-append c n ((j, s) ∷ rs) k r (h, hs) e lt (d, ds) =
      (Apart-append c n s rs k r h.numbered e lt d, DistinctBuilds-append c n rs k r hs e lt ds)

  -- The ledger can be read back, and no two plans share a build number.
  pub record IsWell (l : Ledger) : Type 0 where
    pub readable : IsReadable valid_time l
    pub distinct : DistinctBuilds l.plans

module _ (valid_time : Text → Bool) (policy_sha256 : Json → Text)
    (hex : (j : Json) → is_sha256 (policy_sha256 j) ≡ true) where
  -- A new reservation keeps the invariant.
  pub IsFresh-IsWell :
      (v : View) (l : Ledger) (q : Request) (p : Plan) (l' : Ledger)
      → 0 < q.run_id
      → IsWell valid_time l
      → IsFresh valid_time policy_sha256 v l q p l'
      → IsWell valid_time l'
  unfolding add_plan
  IsFresh-IsWell v l q p l' run w f =
      let number : ℕ = max l.counter f.floor + 1 in
      let build : p.build_number ≡ some number =
        create_plan-build_number valid_time policy_sha256 _ _ _ _ _ number p f.created in
      let kept : ReadablePlans valid_time number l.plans =
        ReadablePlans-mono valid_time l.counter number l.plans (omega arith) w.readable.entries in
      subst (IsWell valid_time) (sym f.written) (record {
        readable = record {
          floor_le = omega (arith, w.readable.floor_le);
          entries = ReadablePlans-append valid_time number l.plans (show q.run_id) _ kept (record {
            numeral = is_positive_numeral-show q.run_id run;
            frozen =
                create_plan-IsFrozen valid_time policy_sha256 hex _ _ _ _ _ q.source_sha p
                  f.created;
            numbered = record { number = number; is = build; within = omega arith };
            clean = refl;
          });
        };
        distinct =
            DistinctBuilds-append valid_time l.counter number l.plans (show q.run_id) _
              w.readable.entries build (omega arith) w.distinct;
      })
