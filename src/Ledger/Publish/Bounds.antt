-- ===== src/Ledger/Publish/Bounds.antt =====
-- The floor that a publication writes is a build number that the ledger allocated.
use inverter_gateway.Prelude.{
  ℕ, ◌≤◌, ◌<◌, Bool, true, false, Option, none, some, List, [], ◌∷◌, ◌≡◌, refl, ap, subst, arith,
  Text, ◌=t◌, Bool-cases, inl, inr, &&-true, show, ==→eq,
}
use inverter_gateway.Prelude.Result.{ok, bind_ok}
use inverter_gateway.Json.{Json}
use inverter_gateway.Plan.Projection.{Plan}
use inverter_gateway.Ledger.Types.{Reservation, Ledger, find, same_number, same_plan, View}
use inverter_gateway.Ledger.Read.Readable.{AtMost, ReadablePlans, IsReadable}
use inverter_gateway.Ledger.Publish.{
  is_exactly, count_plan, verify_reservation, verify_promotion_order, publish_floor,
}
use inverter_gateway.Ledger.Publish.Order.{
  verify_reservation-IsVerified, verify_promotion_order-IsPromotable, publish_floor-order,
}

same_number-eq : (a b : Option ℕ) → same_number a b ≡ true → a ≡ b
same_number-eq none none h = refl
same_number-eq none (some m) h = absurd (cc)
same_number-eq (some n) none h = absurd (cc)
same_number-eq (some n) (some m) h = ap some (==→eq n m h)

same_plan-build : (p q : Plan) → same_plan p q ≡ true → p.build_number ≡ q.build_number
unfolding same_plan
same_plan-build p q h =
    same_number-eq p.build_number q.build_number ((&&-true _ _ (&&-true _ _ (&&-true _ _ h).0).0).1)

module _ (valid_time : Text → Bool) where
  find-AtMost :
      (c : ℕ) (k : Text) (rs : List (Text × Reservation)) (r : Reservation)
      → ReadablePlans valid_time c rs
      → find k rs ≡ some r
      → AtMost c r.plan.build_number
  unfolding find
  find-AtMost c k [] r hs e = absurd (cc)
  find-AtMost c k ((j, s) ∷ rs) r (h, hs) e = elim (Bool-cases (j =t k)) [
    | inl hit ↦
        let same : s ≡ r = ground (arith, hit, e) in
        subst (λ (x : Reservation). AtMost c x.plan.build_number) same h.numbered
    | inr miss ↦ find-AtMost c k rs r hs (ground (arith, miss, e))
  ]

  count-AtMost :
      (c : ℕ) (p : Plan) (rs : List (Text × Reservation))
      → ReadablePlans valid_time c rs
      → 0 < count_plan p rs
      → AtMost c p.build_number
  unfolding count_plan
  count-AtMost c p [] hs e = absurd (omega arith)
  count-AtMost c p ((j, s) ∷ rs) (h, hs) e = elim (Bool-cases (same_plan s.plan p)) [
    | inl hit ↦ subst (AtMost c) (same_plan-build s.plan p hit) h.numbered
    | inr miss ↦ count-AtMost c p rs hs (ground (arith, miss, e))
  ]

  exactly-AtMost :
      (c : ℕ) (p : Plan) (parent : Json) (rs : List (Text × Reservation)) (k : Text)
      (o : Option Reservation)
      → ReadablePlans valid_time c rs
      → find k rs ≡ o
      → is_exactly p parent o ≡ true
      → AtMost c p.build_number
  exactly-AtMost c p parent rs k none hs e h = absurd (cc)
  exactly-AtMost c p parent rs k (some r) hs e h =
      subst (AtMost c) (same_plan-build r.plan p (&&-true _ _ (&&-true _ _ h).0).0)
        (find-AtMost c k rs r hs e)

module _ (valid_time : Text → Bool) (policy_sha256 : Json → Text) where
  publish_floor-AtMost :
      (v : View) (l l' : Ledger) (p : Plan) (run_id : ℕ) (parent : Json) (promotion : Bool)
      → IsReadable valid_time l
      → publish_floor valid_time policy_sha256 v l p run_id parent promotion ≡ ok l'
      → AtMost l.counter p.build_number
  unfolding publish_floor
  publish_floor-AtMost v l l' p run_id parent true w h =
      bind_ok (verify_promotion_order valid_time policy_sha256 v l p) _ h λ u hv h1.
        count-AtMost valid_time l.counter p l.plans w.entries (
          rw ((verify_promotion_order-IsPromotable valid_time policy_sha256 v l p hv).unique)
            (omega arith))
  publish_floor-AtMost v l l' p run_id parent false w h =
      bind_ok (verify_reservation valid_time policy_sha256 v l p run_id parent) _ h λ u hv h1.
        exactly-AtMost valid_time l.counter p parent l.plans (show run_id)
          (find (show run_id) l.plans) w.entries refl
          ((verify_reservation-IsVerified valid_time policy_sha256 v l p run_id parent hv).reserved)

  -- The new publication floor that begin_publication writes from a readable ledger stays within
  -- the counter.
  pub publish_floor-le-counter :
      (v : View) (l l' : Ledger) (p : Plan) (run_id : ℕ) (parent : Json) (promotion : Bool)
      → IsReadable valid_time l
      → publish_floor valid_time policy_sha256 v l p run_id parent promotion ≡ ok l'
      → l'.publication_floor ≤ l'.counter
  publish_floor-le-counter v l l' p run_id parent promotion w h =
      let a = publish_floor-AtMost v l l' p run_id parent promotion w h in
      let o = publish_floor-order valid_time policy_sha256 v l l' p run_id parent promotion h in
      ground (arith, a.is, a.within, o)
