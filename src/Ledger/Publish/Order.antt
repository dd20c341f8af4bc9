-- ===== src/Ledger/Publish/Order.antt =====
-- Publication consumes build numbers in order.
use inverter_gateway.Prelude.{
  ◌⊎◌, ℕ, ◌≤◌, ◌<◌, Bool, true, false, Option, none, some, ◌≡◌, arith, Text, ◌==◌, ◌&&◌, ltb, leb,
  ltb→lt, leb→le, show,
}
use inverter_gateway.Prelude.Result.{ok, bind_ok, guard_ok}
use inverter_gateway.Json.{Json}
use inverter_gateway.Plan.Policy.{promote_bytes, same_promotion}
use inverter_gateway.Plan.Identity.{rc}
use inverter_gateway.Plan.Projection.{Plan}
use inverter_gateway.Plan.Create.{validate_plan, to_json}
use inverter_gateway.Ledger.Types.{Ledger, find, same_channel, View}
use inverter_gateway.Ledger.Publish.{
  is_exactly, number_of, is_published, newer_or_equal, newer_than, count_plan, verify_reservation,
  verify_promotion_order, publish_floor,
}

number_of-ok : (o : Option ℕ) (n : ℕ) → number_of o ≡ ok n → o ≡ some n
number_of-ok none n h = absurd (cc)
number_of-ok (some m) n h = cc

module _ (valid_time : Text → Bool) (policy_sha256 : Json → Text) where
  -- What an accepted reservation check says.
  pub record IsVerified (v : View) (l : Ledger) (p : Plan) (run_id : ℕ) (parent : Json)
      : Type 0 where
    pub number : ℕ
    pub build : p.build_number ≡ some number
    pub reserved : is_exactly p parent (find (show run_id) l.plans) ≡ true
    pub above : l.publication_floor < number
    pub newest : newer_or_equal number v.releases l.plans ≡ false

  pub verify_reservation-IsVerified :
      (v : View) (l : Ledger) (p : Plan) (run_id : ℕ) (parent : Json)
      → verify_reservation valid_time policy_sha256 v l p run_id parent ≡ ok tt
      → IsVerified v l p run_id parent
  unfolding verify_reservation
  verify_reservation-IsVerified v l p run_id parent h =
      bind_ok (validate_plan valid_time policy_sha256 (to_json p) none none) _ h λ checked h0 h1.
        guard_ok (ltb 0 run_id) _ _ h1 λ h2 h3.
          guard_ok (is_exactly p parent (find (show run_id) l.plans)) _ _ h3 λ hr h4.
            bind_ok (number_of p.build_number) _ h4 λ n hn h5.
              guard_ok (ltb l.publication_floor n) _ _ h5 λ hf h6. record {
                number = n;
                build = number_of-ok p.build_number n hn;
                reserved = hr;
                above = ltb→lt l.publication_floor n hf;
                newest = ground (arith, h6);
              }

  -- What an accepted promotion check says.
  pub record IsPromotable (v : View) (l : Ledger) (p : Plan) : Type 0 where
    pub number : ℕ
    pub build : p.build_number ≡ some number
    pub candidate :
        (same_channel p.channel rc ≡ true) × (same_promotion p.promotion promote_bytes ≡ true)
    pub unique : count_plan p l.plans ≡ 1
    pub not_below : l.publication_floor ≤ number
    pub published : is_published p.tag v.releases ≡ true
    pub newest : newer_than number p.tag v.releases l.plans ≡ false

  pub verify_promotion_order-IsPromotable :
      (v : View) (l : Ledger) (p : Plan)
      → verify_promotion_order valid_time policy_sha256 v l p ≡ ok tt
      → IsPromotable v l p
  unfolding verify_promotion_order
  verify_promotion_order-IsPromotable v l p h =
      bind_ok (validate_plan valid_time policy_sha256 (to_json p) none none) _ h λ checked h0 h1.
        guard_ok (same_channel p.channel rc && same_promotion p.promotion promote_bytes) _ _ h1
          λ hc h2. guard_ok (count_plan p l.plans == 1) _ _ h2 λ hu h3.
            bind_ok (number_of p.build_number) _ h3 λ n hn h4.
              guard_ok (leb l.publication_floor n) _ _ h4 λ hf h5.
                guard_ok (is_published p.tag v.releases) _ _ h5 λ hp h6. record {
                  number = n;
                  build = number_of-ok p.build_number n hn;
                  candidate = ground (arith, hc);
                  unique = ground (arith, hu);
                  not_below = leb→le l.publication_floor n hf;
                  published = hp;
                  newest = ground (arith, h6);
                }

  -- The floor that a publication writes: never below the old one, and above it unless an accepted
  -- RC is promoted. Nothing else of the ledger changes.
  pub publish_floor-order :
      (v : View) (l l' : Ledger) (p : Plan) (run_id : ℕ) (parent : Json) (promotion : Bool)
      → publish_floor valid_time policy_sha256 v l p run_id parent promotion ≡ ok l'
      → (p.build_number ≡ some l'.publication_floor)
        × (l.publication_floor ≤ l'.publication_floor)
        × ((promotion ≡ true) ⊎ (l.publication_floor < l'.publication_floor))
        × (l'.counter ≡ l.counter)
        × (l'.plans ≡ l.plans)
  unfolding publish_floor
  publish_floor-order v l l' p run_id parent true h =
      bind_ok (verify_promotion_order valid_time policy_sha256 v l p) _ h λ u hv h1.
        bind_ok (number_of p.build_number) _ h1 λ n hn h2.
          let k = verify_promotion_order-IsPromotable v l p hv in
          ground (arith, number_of-ok p.build_number n hn, k.build, k.not_below, h2)
  publish_floor-order v l l' p run_id parent false h =
      bind_ok (verify_reservation valid_time policy_sha256 v l p run_id parent) _ h λ u hv h1.
        bind_ok (number_of p.build_number) _ h1 λ n hn h2.
          let k = verify_reservation-IsVerified v l p run_id parent hv in
          ground (arith, number_of-ok p.build_number n hn, k.build, k.above, h2)
