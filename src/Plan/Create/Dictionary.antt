-- ===== src/Plan/Create/Dictionary.antt =====
-- The dictionary that `validate_plan` accepts against the plan that the model returns for it.
use inverter_gateway.Prelude.{
  Bool, true, Option, some, ◌≡◌, ap, subst, ◌∙◌, Text, codes, ◌=t◌, ◌++◌, ◌&&◌, &&-true, =t→eq, All,
  arith, String,
}
use inverter_gateway.Prelude.Result.{ok, bind_ok, guard_ok, ok-injective}
use inverter_gateway.Json.{Json, Fields, int, str, get, exactly}
use inverter_gateway.Plan.Identity.{channel_name, identity}
use inverter_gateway.Plan.Identity.Inversion.{sequence_json, identity-Accepted}
use inverter_gateway.Plan.Declaration.{pick}
use inverter_gateway.Plan.Declared.{present}
use inverter_gateway.Plan.Policy.{Promotion, promotion_of}
use inverter_gateway.Plan.Projection.{Plan}
use inverter_gateway.Plan.Create.{
  sha_value, build_value, digest_value, build_json, promotion_name, to_fields, plan_shape,
  plan_keys, is_one, is_text, at,
}
use inverter_gateway.Plan.Create.RoundTrip.{
  IsFrozen, IsFrozen-parts, plan_from, sha_value-ok, digest_value-ok, build_value-ok,
}

-- The fields are those of a plan, with the values that the plan's own dictionary has.
abbrev pub IsDictionaryOf : Plan → Fields → Type 0
IsDictionaryOf p fields =
    (exactly plan_keys fields ≡ true)
    × All (λ key. get fields key ≡ get (to_fields p) key) plan_keys

is_text-eq : (s : Text) (j : Json) → is_text s j ≡ true → j ≡ str s
is_text-eq s (str t) h = ap str (=t→eq t s h)
is_text-eq s _ h = absurd (cc)

is_one-eq : (j : Json) → is_one j ≡ true → j ≡ int 1
is_one-eq (int n) h = ap int (ground (arith, h))
is_one-eq _ h = absurd (cc)

present-ok : (o : Option Json) (m : String) (j : Json) → present o m ≡ ok j → o ≡ some j
present-ok o m j h = ground arith

promotion-name : (s : Text) (p : Promotion) → promotion_of s ≡ some p → s ≡ promotion_name p
unfolding promotion_of
promotion-name s p h =
    ground (arith, =t→eq s (codes "promote-bytes"), =t→eq s (codes "final-build"))

pick-promotion :
    (m : String) (j : Json) (p : Promotion)
    → pick promotion_of m j ≡ ok p
    → j ≡ str (promotion_name p)
pick-promotion m (str s) p h = ap str (promotion-name s p (ground arith))
pick-promotion m _ p h = absurd (cc)

-- Each key of the plan's own dictionary has its value.
dictionary-values :
    (fields : Fields) (p : Plan)
    → get fields (codes "schema_version") ≡ some (int 1)
    → get fields (codes "base_version") ≡ some (str p.base_version)
    → get fields (codes "version") ≡ some (str p.version)
    → get fields (codes "channel") ≡ some (str (channel_name p.channel))
    → get fields (codes "sequence") ≡ some (sequence_json p.sequence)
    → get fields (codes "tag") ≡ some (str p.tag)
    → get fields (codes "source_sha") ≡ some (str p.source_sha)
    → get fields (codes "build_number") ≡ some (build_json p.build_number)
    → get fields (codes "policy_sha256") ≡ some (str p.policy_sha256)
    → get fields (codes "promotion") ≡ some (str (promotion_name p.promotion))
    → All (λ key. get fields key ≡ get (to_fields p) key) plan_keys
unfolding to_fields get ◌=t◌
dictionary-values fields p a b c d e f g h i j =
    (a, (b, (c, (d, (e, (f, (g, (h, (i, (j, tt))))))))))

-- A field that was read, with the value that it was checked to have.
read_as :
    (fields : Fields) (key : String) (j k : Json)
    → at fields key ≡ ok j
    → j ≡ k
    → get fields (codes key) ≡ some k
read_as fields key j k h e = present-ok (get fields (codes key)) key j h ∙ ap some e

module _ (valid_time : Text → Bool) where
  -- What `plan_shape` accepts is the dictionary of a frozen plan.
  pub plan_shape-IsDictionaryOf :
      (fields : Fields) (p : Plan)
      → plan_shape valid_time fields ≡ ok p
      → IsDictionaryOf p fields × IsFrozen valid_time p
  unfolding plan_shape
  plan_shape-IsDictionaryOf fields p h = guard_ok (exactly plan_keys fields) _ _ h λ h0 h1.
      bind_ok (at fields "schema_version") _ h1 λ schema hs h2.
        guard_ok (is_one schema) _ _ h2 λ h3 h4.
          bind_ok (at fields "base_version") _ h4 λ base hb h5.
            bind_ok (at fields "channel") _ h5 λ channel hc h6.
              bind_ok (at fields "sequence") _ h6 λ sequence hq h7.
                bind_ok (identity valid_time base channel sequence) _ h7 λ who hi h8.
                  bind_ok (at fields "version") _ h8 λ version hv h9.
                    bind_ok (at fields "tag") _ h9 λ tag ht h10.
                      guard_ok
                        (is_text who.version version && is_text (codes "v" ++ who.version) tag) _ _
                        h10
                        λ hw h11. bind_ok (at fields "source_sha") _ h11 λ source hz h12.
                          bind_ok (sha_value _ source) _ h12 λ sha ha h13.
                            bind_ok (at fields "policy_sha256") _ h13 λ digest hd h14.
                              bind_ok (digest_value digest) _ h14 λ policy_digest hp h15.
                                bind_ok (at fields "promotion") _ h15 λ profile hr h16.
                                  bind_ok (pick promotion_of _ profile) _ h16 λ promotion hm h17.
                                    bind_ok (at fields "build_number") _ h17 λ build hu h18.
                                      bind_ok (build_value _ build) _ h18 λ number hn h19.
                                        let a =
                                          identity-Accepted valid_time base channel sequence who
                                            hi in
                                        let (same, tagged) =
                                          &&-true (is_text who.version version)
                                            (is_text (codes "v" ++ who.version) tag) hw in
                                        subst (λ x. IsDictionaryOf x fields × IsFrozen valid_time x)
                                          (ok-injective _ _ h19)
                                          (
                                            (
                                              h0,
                                              dictionary-values fields
                                                  (plan_from valid_time who sha number policy_digest
                                                    promotion)
                                                  (read_as fields "schema_version" schema _ hs
                                                    (is_one-eq schema h3))
                                                  (read_as fields "base_version" base _ hb
                                                    a.base_given)
                                                  (read_as fields "version" version _ hv
                                                    (is_text-eq who.version version same))
                                                  (read_as fields "channel" channel _ hc
                                                    a.channel_given)
                                                  (read_as fields "sequence" sequence _ hq
                                                    a.sequence_given)
                                                  (read_as fields "tag" tag _ ht
                                                    (is_text-eq _ tag tagged))
                                                  (read_as fields "source_sha" source _ hz
                                                    (sha_value-ok _ source sha ha).0)
                                                  (read_as fields "build_number" build _ hu
                                                    (build_value-ok _ build number hn).0)
                                                  (read_as fields "policy_sha256" digest _ hd
                                                    (digest_value-ok digest policy_digest hp).0)
                                                  (read_as fields "promotion" profile _ hr
                                                    (pick-promotion _ profile promotion hm)),
                                            ),
                                            IsFrozen-parts valid_time base channel sequence who sha
                                                number policy_digest promotion hi
                                                (sha_value-ok _ source sha ha).1
                                                (digest_value-ok digest policy_digest hp).1
                                                (build_value-ok _ build number hn).1,
                                          )
