-- ===== src/Ledger/Reserve/Fresh.antt =====
-- What a new reservation is, in terms of the ledger and the repository that the run read.
use inverter_gateway.Prelude.{
  ℕ, ◌+◌, Bool, Option, none, some, ◌≡◌, refl, subst, arith, Text, max, show,
}
use inverter_gateway.Prelude.Result.{ok, bind_ok}
use inverter_gateway.Json.{Json, int, str}
use inverter_gateway.Plan.Identity.{channel_of}
use inverter_gateway.Plan.Projection.{Plan}
use inverter_gateway.Plan.Create.{create_plan, validate_plan, to_json}
use inverter_gateway.Ledger.Types.{Reservation, Ledger, find, View}
use inverter_gateway.Ledger.Sequence.{ensure_absent}
use inverter_gateway.Ledger.Reserve.{
  Request, fresh, new_sequence, policy_floor, add_plan, repeat_reservation, new_reservation, by_key,
  decide,
}

module _ (valid_time : Text → Bool) (policy_sha256 : Json → Text) where
  pub record IsFresh (v : View) (l : Ledger) (q : Request) (p : Plan) (l' : Ledger) : Type 0 where
    pub floor : ℕ
    pub sequence : Json
    pub policy : policy_floor q.policy ≡ ok floor
    pub sequenced : new_sequence v l q (channel_of q.channel) ≡ ok sequence
    pub created :
        create_plan valid_time policy_sha256
          (str q.base)
          (str q.channel)
          sequence
          (str q.source_sha)
          q.policy
          (int (max l.counter floor + 1))
        ≡ ok p
    pub absent : ensure_absent v p.tag ≡ ok tt
    pub unused : find (show q.run_id) l.plans ≡ none
    pub written : l' ≡ add_plan l (max l.counter floor + 1) (show q.run_id) p q.parent

  new_reservation-fresh :
      (v : View) (l : Ledger) (q : Request) (p : Plan) (l' : Ledger)
      → find (show q.run_id) l.plans ≡ none
      → new_reservation valid_time policy_sha256 v l q (show q.run_id) ≡ ok (fresh p l')
      → IsFresh v l q p l'
  unfolding new_reservation
  new_reservation-fresh v l q p l' unused h =
      bind_ok (new_sequence v l q (channel_of q.channel)) _ h λ sequence hs h1.
        bind_ok (policy_floor q.policy) _ h1 λ floor hf h2.
          bind_ok
            (create_plan valid_time policy_sha256 (str q.base) (str q.channel) sequence
              (str q.source_sha) q.policy (int (max l.counter floor + 1)))
            _ h2
            λ plan hp h3. bind_ok (ensure_absent v plan.tag) _ h3 λ u ha h4.
              let same : plan ≡ p = cc (h4) in
              record {
                floor = floor;
                sequence = sequence;
                policy = hf;
                sequenced = hs;
                created =
                    subst
                      (λ x.
                        create_plan valid_time policy_sha256 (str q.base) (str q.channel) sequence
                          (str q.source_sha) q.policy (int (max l.counter floor + 1))
                        ≡ ok x)
                      same hp;
                absent = subst (λ (x : Plan). ensure_absent v x.tag ≡ ok tt) same ha;
                unused = unused;
                written = cc (h4);
              }

  repeat-ne-fresh :
      (q : Request) (r : Reservation) (p : Plan) (l' : Ledger)
      → ¬ (repeat_reservation valid_time policy_sha256 q r ≡ ok (fresh p l'))
  unfolding repeat_reservation
  repeat-ne-fresh q r p l' h =
      bind_ok
        (validate_plan valid_time policy_sha256 (to_json r.plan) (some q.policy)
          (some q.source_sha))
        _ h λ plan hp h1. ground arith

  by_key-fresh :
      (v : View) (l : Ledger) (q : Request) (p : Plan) (l' : Ledger) (o : Option Reservation)
      → find (show q.run_id) l.plans ≡ o
      → by_key valid_time policy_sha256 v l q (show q.run_id) o ≡ ok (fresh p l')
      → IsFresh v l q p l'
  by_key-fresh v l q p l' none e h = new_reservation-fresh v l q p l' e h
  by_key-fresh v l q p l' (some r) e h = absurd (repeat-ne-fresh q r p l' h)

  pub decide-IsFresh :
      (v : View) (l : Ledger) (q : Request) (p : Plan) (l' : Ledger)
      → decide valid_time policy_sha256 v l q ≡ ok (fresh p l')
      → IsFresh v l q p l'
  unfolding decide
  decide-IsFresh v l q p l' h = by_key-fresh v l q p l' (find (show q.run_id) l.plans) refl h
