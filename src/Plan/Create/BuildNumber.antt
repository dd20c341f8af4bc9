-- ===== src/Plan/Create/BuildNumber.antt =====
-- The arguments that a created plan keeps.
use inverter_gateway.Prelude.{ℕ, Bool, Option, some, ◌≡◌, subst, arith, Text, String}
use inverter_gateway.Prelude.Result.{ok, bind_ok, guard_ok, ok-injective}
use inverter_gateway.Json.{Json, int}
use inverter_gateway.Plan.Identity.{identity}
use inverter_gateway.Plan.Policy.{validate_policy}
use inverter_gateway.Plan.Projection.{Plan, project_all}
use inverter_gateway.Plan.Create.{sha_value, build_value, freeze, create_plan, above}
use inverter_gateway.Plan.Create.RoundTrip.{who_of}

build_value-int :
    (message : String) (n : ℕ) (o : Option ℕ) → build_value message (int n) ≡ ok o → o ≡ some n
unfolding build_value
build_value-int message n o h = ground arith

module _ (valid_time : Text → Bool) (policy_sha256 : Json → Text) where
  -- The identity and the build number of a created plan are those that were asked for.
  pub create_plan-arguments :
      (b c s sha policy : Json) (n : ℕ) (p : Plan)
      → create_plan valid_time policy_sha256 b c s sha policy (int n) ≡ ok p
      → (identity valid_time b c s ≡ ok (who_of p)) × (p.build_number ≡ some n)
  unfolding create_plan freeze
  create_plan-arguments b c s sha policy n p h =
      bind_ok (validate_policy policy) _ h λ config hc h1.
        bind_ok (identity valid_time b c s) _ h1 λ who hi h2.
          bind_ok (sha_value _ sha) _ h2 λ source hs h3.
            bind_ok (build_value _ (int n)) _ h3 λ number hn h4.
              guard_ok (above config.floor number) _ _ h4 λ ha h5.
                bind_ok
                  (project_all (freeze config who source number (policy_sha256 policy))
                    config.files)
                  _ h5
                  λ u hp h6.
                    subst
                      (λ (q : Plan).
                        (identity valid_time b c s ≡ ok (who_of q)) × (q.build_number ≡ some n))
                      (ok-injective _ _ h6) (hi, build_value-int _ n number hn)

  pub create_plan-build_number :
      (b c s sha policy : Json) (n : ℕ) (p : Plan)
      → create_plan valid_time policy_sha256 b c s sha policy (int n) ≡ ok p
      → p.build_number ≡ some n
  create_plan-build_number b c s sha policy n p h = (create_plan-arguments b c s sha policy n p h).1
