-- ===== src/Plan/Create/RoundTrip.antt =====
-- Plans that `create_plan` made or `validate_plan` accepted: what is known of them, and that their
-- dictionaries are accepted again.
use inverter_gateway.Prelude.{
  ℕ, ◌<◌, ◌≤◌, Bool, true, Option, none, some, ◌≡◌, refl, sym, subst, arith, Text, codes, ◌++◌,
  ◌=t◌, =t-self, String,
}
use inverter_gateway.Prelude.Result.{ok}
use inverter_gateway.Json.{
  Json, null, boolean, int, negative, float, str, arr, obj, get, exactly, only, keys,
}
use inverter_gateway.Plan.Patterns.{is_sha, is_sha256}
use inverter_gateway.Plan.Identity.{channel_name, Identity, identity}
use inverter_gateway.Plan.Identity.Inversion.{sequence_json, identity-Accepted}
use inverter_gateway.Plan.Policy.{
  Promotion, promote_bytes, final_build, promotion_of, same_promotion,
}
use inverter_gateway.Plan.Projection.{Plan}
use inverter_gateway.Plan.Create.{
  sha_value, build_value, max_build, digest_value, build_json, promotion_name, to_fields,
  plan_shape,
}

pub sha_value-ok :
    (m : String) (j : Json) (s : Text) → sha_value m j ≡ ok s → (j ≡ str s) × (is_sha s ≡ true)
unfolding sha_value
sha_value-ok m j s h = ground arith

sha_value-str : (m : String) (s : Text) → is_sha s ≡ true → sha_value m (str s) ≡ ok s
unfolding sha_value
sha_value-str m s h = rw h

digest_value-str : (s : Text) → is_sha256 s ≡ true → digest_value (str s) ≡ ok s
unfolding digest_value
digest_value-str s h = rw h

pub digest_value-ok :
    (j : Json) (s : Text) → digest_value j ≡ ok s → (j ≡ str s) × (is_sha256 s ≡ true)
unfolding digest_value
digest_value-ok j s h = ground arith

-- A build number is missing or positive and at most the maximum.
abbrev pub InRange : Option ℕ → Type 0
InRange none = Unit
InRange (some n) = (0 < n) × (n ≤ max_build)

pub build_value-ok :
    (m : String) (j : Json) (n : Option ℕ) → build_value m j ≡ ok n → (j ≡ build_json n) × InRange n
unfolding build_value
build_value-ok m null none h = (refl, tt)
build_value-ok m null (some k) h = absurd (cc)
build_value-ok m (int n) none h = absurd (ground arith)
build_value-ok m (int n) (some k) h = ground arith
build_value-ok m (boolean b) n h = absurd (cc)
build_value-ok m (negative k) n h = absurd (cc)
build_value-ok m (float s) n h = absurd (cc)
build_value-ok m (str s) n h = absurd (cc)
build_value-ok m (arr xs) n h = absurd (cc)
build_value-ok m (obj fs) n h = absurd (cc)

build_value-json : (m : String) (n : Option ℕ) → InRange n → build_value m (build_json n) ≡ ok n
unfolding build_value
build_value-json m none h = refl
build_value-json m (some n) h = ground arith

promotion_of-name : (p : Promotion) → promotion_of (promotion_name p) ≡ some p
unfolding promotion_of ◌=t◌
promotion_of-name promote_bytes = refl
promotion_of-name final_build = refl

pub same_promotion_self : (p : Promotion) → same_promotion p p ≡ true
unfolding same_promotion
same_promotion_self promote_bytes = refl
same_promotion_self final_build = refl

abbrev pub who_of : Plan → Identity
who_of p = record {
  base = p.base_version;
  channel = p.channel;
  sequence = p.sequence;
  version = p.version;
}

module _ (valid_time : Text → Bool) where
  -- What every created or accepted plan satisfies.
  pub record IsFrozen (p : Plan) : Type 0 where
    pub identified :
        identity valid_time
          (str p.base_version)
          (str (channel_name p.channel))
          (sequence_json p.sequence)
        ≡ ok (who_of p)
    pub tagged : p.tag ≡ codes "v" ++ p.version
    pub source : is_sha p.source_sha ≡ true
    pub digest : is_sha256 p.policy_sha256 ≡ true
    pub in_range : InRange p.build_number

  identity_again :
      (b c s : Json) (who : Identity)
      → identity valid_time b c s ≡ ok who
      → identity valid_time
          (str who.base)
          (str (channel_name who.channel))
          (sequence_json who.sequence)
        ≡ ok who
  identity_again b c s who h =
      let a = identity-Accepted valid_time b c s who h in
      rw (← a.base_given, ← a.channel_given, ← a.sequence_given) h

  -- The plan that has these parts.
  abbrev pub plan_from : Identity → Text → Option ℕ → Text → Promotion → Plan
  plan_from who sha n digest promotion = record {
    base_version = who.base;
    version = who.version;
    channel = who.channel;
    sequence = who.sequence;
    tag = codes "v" ++ who.version;
    source_sha = sha;
    build_number = n;
    policy_sha256 = digest;
    promotion = promotion;
  }

  plan_shape-parts :
      (who : Identity) (sha : Text) (n : Option ℕ) (digest : Text) (promotion : Promotion)
      → identity valid_time
          (str who.base)
          (str (channel_name who.channel))
          (sequence_json who.sequence)
        ≡ ok who
      → is_sha sha ≡ true
      → is_sha256 digest ≡ true
      → InRange n
      → plan_shape valid_time (to_fields (plan_from who sha n digest promotion))
        ≡ ok (plan_from who sha n digest promotion)
  unfolding plan_shape to_fields get exactly only keys ◌=t◌ promotion_of
  plan_shape-parts who sha n digest promotion hi hs hd hn = rw (
    hi,
    =t-self who.version,
    sha_value-str _ sha hs,
    digest_value-str digest hd,
    promotion_of-name promotion,
    build_value-json _ n hn,
  )

  -- The dictionary of a frozen plan is accepted as that plan.
  pub plan_shape-to_fields : (p : Plan) → IsFrozen p → plan_shape valid_time (to_fields p) ≡ ok p
  plan_shape-to_fields p f =
      subst (λ q. plan_shape valid_time (to_fields q) ≡ ok q)
        (λ i. record p { tag = sym f.tagged i })
        (plan_shape-parts (who_of p) p.source_sha p.build_number p.policy_sha256 p.promotion
          f.identified f.source f.digest f.in_range)

  pub IsFrozen-parts :
      (b c s : Json) (who : Identity) (sha : Text) (n : Option ℕ) (digest : Text)
      (promotion : Promotion)
      → identity valid_time b c s ≡ ok who
      → is_sha sha ≡ true
      → is_sha256 digest ≡ true
      → InRange n
      → IsFrozen (plan_from who sha n digest promotion)
  IsFrozen-parts b c s who sha n digest promotion hi hs hd hn = record {
    identified = identity_again b c s who hi;
    tagged = refl;
    source = hs;
    digest = hd;
    in_range = hn;
  }
