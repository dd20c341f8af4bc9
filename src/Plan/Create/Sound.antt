-- ===== src/Plan/Create/Sound.antt =====
-- What `validate_plan` accepts.
use inverter_gateway.Prelude.{Bool, Option, ◌≡◌, subst, ◌∙◌, Text}
use inverter_gateway.Prelude.Result.{ok, bind_ok, ok-injective}
use inverter_gateway.Json.{Json, Fields, null, obj}
use inverter_gateway.Plan.Projection.{Plan}
use inverter_gateway.Plan.Create.{plan_shape, bind_policy, bind_source, validate_plan}
use inverter_gateway.Plan.Create.RoundTrip.{IsFrozen}
use inverter_gateway.Plan.Create.Dictionary.{IsDictionaryOf, plan_shape-IsDictionaryOf}

module _ (valid_time : Text → Bool) (policy_sha256 : Json → Text) where
  validate_plan-parts :
      (j : Json) (policy : Option Json) (sha : Option Text) (p : Plan)
      → validate_plan valid_time policy_sha256 j policy sha ≡ ok p
      → IsFrozen valid_time p
        × (bind_policy policy_sha256 p policy ≡ ok tt)
        × (bind_source p sha ≡ ok tt)
  unfolding validate_plan
  validate_plan-parts (obj fields) policy sha p h =
      bind_ok (plan_shape valid_time fields) _ h λ q hq h1.
        bind_ok (bind_policy policy_sha256 q policy) _ h1 λ u hb h2.
          bind_ok (bind_source q sha) _ h2 λ v hv h3.
            let e = ok-injective q p h3 in
            (
              subst (IsFrozen valid_time) e (plan_shape-IsDictionaryOf valid_time fields q hq).1,
              subst (λ x. bind_policy policy_sha256 x policy ≡ ok tt) e hb,
              subst (λ x. bind_source x sha ≡ ok tt) e hv,
            )
  validate_plan-parts null policy sha p h = absurd (cc)
  validate_plan-parts _ policy sha p h = absurd (cc)

  -- Every accepted plan is frozen: its version, tag, digest and build number are those of
  -- `create_plan`.
  pub validate_plan-IsFrozen :
      (j : Json) (policy : Option Json) (sha : Option Text) (p : Plan)
      → validate_plan valid_time policy_sha256 j policy sha ≡ ok p
      → IsFrozen valid_time p
  validate_plan-IsFrozen j policy sha p h = (validate_plan-parts j policy sha p h).0

  -- A dictionary that validate_plan accepts has exactly the ten fields of a plan, each with
  -- the value that the plan's own dictionary has there; its version is the one made of its
  -- base version, channel and sequence, its tag is v and that version, its commit and policy
  -- digest have their forms, and its build number is missing or in range.
  pub validate_plan-IsDictionaryOf :
      (fields : Fields) (policy : Option Json) (sha : Option Text) (p : Plan)
      → validate_plan valid_time policy_sha256 (obj fields) policy sha ≡ ok p
      → IsDictionaryOf p fields × IsFrozen valid_time p
  unfolding validate_plan
  validate_plan-IsDictionaryOf fields policy sha p h =
      bind_ok (plan_shape valid_time fields) _ h λ q hq h1.
        bind_ok (bind_policy policy_sha256 q policy) _ h1 λ u hb h2.
          bind_ok (bind_source q sha) _ h2
            λ v hv h3. plan_shape-IsDictionaryOf valid_time fields p (hq ∙ h3)
