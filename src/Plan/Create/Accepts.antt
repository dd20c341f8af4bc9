-- ===== src/Plan/Create/Accepts.antt =====
-- `create_plan` against `validate_plan`: what was created is accepted, and what is accepted has the
-- shape of what is created.
use inverter_gateway.Prelude.{Bool, true, some, ◌≡◌, refl, subst, arith, Text, ◌=t◌, =t-self}
use inverter_gateway.Prelude.Result.{ok, bind_ok, guard_ok, ok-injective}
use inverter_gateway.Json.{Json, str}
use inverter_gateway.Plan.Patterns.{is_sha256}
use inverter_gateway.Plan.Identity.{identity}
use inverter_gateway.Plan.Policy.{Promotion, same_promotion, Config, validate_policy}
use inverter_gateway.Plan.Projection.{Plan, project_all}
use inverter_gateway.Plan.Create.{
  sha_value, build_value, freeze, to_json, create_plan, bind_policy, bind_source, validate_plan,
  above,
}
use inverter_gateway.Plan.Create.RoundTrip.{
  IsFrozen, IsFrozen-parts, plan_shape-to_fields, same_promotion_self, sha_value-ok, build_value-ok,
}

bind_policy-ok :
    (policy_sha256 : Json → Text) (p : Plan) (policy : Json) (config : Config)
    → validate_policy policy ≡ ok config
    → (p.policy_sha256 =t policy_sha256 policy) ≡ true
    → same_promotion p.promotion config.promotion ≡ true
    → above config.floor p.build_number ≡ true
    → project_all p config.files ≡ ok tt
    → bind_policy policy_sha256 p (some policy) ≡ ok tt
unfolding bind_policy
bind_policy-ok policy_sha256 p policy config hc hd hp ha hf = rw (hc, hd, hp, ha, hf)

=t-eq : (s t : Text) → s ≡ t → (s =t t) ≡ true
=t-eq s t e = rw e (=t-self t)

same_promotion-eq : (a b : Promotion) → a ≡ b → same_promotion a b ≡ true
same_promotion-eq a b e = rw e (same_promotion_self b)

-- What `create_plan` checked on the way to its result.
record Created (valid_time : Text → Bool) (policy : Json) (s : Text) (p : Plan) (digest : Text)
    : Type 0 where
  config : Config
  policy_valid : validate_policy policy ≡ ok config
  frozen : IsFrozen valid_time p
  bound : p.policy_sha256 ≡ digest
  source : p.source_sha ≡ s
  promoted : p.promotion ≡ config.promotion
  above_floor : above config.floor p.build_number ≡ true
  projected : project_all p config.files ≡ ok tt

module _ (valid_time : Text → Bool) (policy_sha256 : Json → Text)
    (hex : (j : Json) → is_sha256 (policy_sha256 j) ≡ true) where
  create_plan-Created :
      (b c s policy n : Json) (sha : Text) (p : Plan)
      → create_plan valid_time policy_sha256 b c s (str sha) policy n ≡ ok p
      → Created valid_time policy sha p (policy_sha256 policy)
  unfolding create_plan freeze
  create_plan-Created b c s policy n sha p h = bind_ok (validate_policy policy) _ h λ config hc h1.
      bind_ok (identity valid_time b c s) _ h1 λ who hi h2.
        bind_ok (sha_value _ (str sha)) _ h2 λ source hs h3.
          bind_ok (build_value _ n) _ h3 λ number hn h4.
            guard_ok (above config.floor number) _ _ h4 λ ha h5.
              bind_ok
                (project_all (freeze config who source number (policy_sha256 policy)) config.files)
                _ h5
                λ u hp h6.
                  subst (λ q. Created valid_time policy sha q (policy_sha256 policy))
                    (ok-injective _ _ h6)
                    (record {
                      config = config;
                      policy_valid = hc;
                      frozen =
                          IsFrozen-parts valid_time b c s who source number (policy_sha256 policy)
                            config.promotion hi (sha_value-ok _ _ _ hs).1 (hex policy)
                            (build_value-ok _ _ _ hn).1;
                      bound = refl;
                      source = ground (arith, sha_value-ok _ (str sha) source hs);
                      promoted = refl;
                      above_floor = ha;
                      projected = hp;
                    })

  -- The dictionary of a created plan is accepted, for the policy and the commit that it was created
  -- from, and decodes to the plan itself.
  pub validate_plan-create_plan :
      (b c s policy n : Json) (sha : Text) (p : Plan)
      → create_plan valid_time policy_sha256 b c s (str sha) policy n ≡ ok p
      → validate_plan valid_time policy_sha256 (to_json p) (some policy) (some sha) ≡ ok p
  unfolding validate_plan bind_source to_json
  validate_plan-create_plan b c s policy n sha p h =
      let k = create_plan-Created b c s policy n sha p h in
      rw (
        plan_shape-to_fields valid_time p k.frozen,
        bind_policy-ok policy_sha256 p policy k.config k.policy_valid (=t-eq _ _ k.bound)
            (same_promotion-eq _ _ k.promoted) k.above_floor k.projected,
        =t-eq p.source_sha sha k.source,
      )

  -- A created plan is frozen.
  pub create_plan-IsFrozen :
      (b c s policy n : Json) (sha : Text) (p : Plan)
      → create_plan valid_time policy_sha256 b c s (str sha) policy n ≡ ok p
      → IsFrozen valid_time p
  create_plan-IsFrozen b c s policy n sha p h = (create_plan-Created b c s policy n sha p h).frozen
