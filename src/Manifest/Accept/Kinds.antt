-- ===== src/Manifest/Accept/Kinds.antt =====
-- The two kinds of manifest that `validate_manifest` of scripts/release_control.py accepts, and the frozen plan.
use inverter_gateway.Prelude.{
  ℕ, true, false, Option, none, some, ◌++◌, ◌&&◌, ◌≡◌, ap, ◌⊎◌, inl, inr, Text, codes, ◌=t◌, =t→eq,
  &&-true, if_cases, not-true, String,
}
use inverter_gateway.Prelude.Result.{ok, bind_ok, guard_ok, require_ok, ok-injective}
use inverter_gateway.Json.{Json, Fields, int, str, obj, get, exactly}
use inverter_gateway.Json.Equality.{py_eq}
use inverter_gateway.Json.Texts.{text_is, text_is-eq, value_or_none}
use inverter_gateway.Plan.Patterns.{is_sha256}
use inverter_gateway.Plan.Identity.{channel_name}
use inverter_gateway.Plan.Projection.{Plan}
use inverter_gateway.Plan.Create.{validate_plan}
use inverter_gateway.Runs.Provenance.{positive}
use inverter_gateway.Manifest.Python.{Python, is_truthy}
use inverter_gateway.Manifest.Policy.{text_with, policy_fields}
use inverter_gateway.Manifest.Accept.{
  is_rc_tag, text_value, parent_keys, validate_manifest_plan, check_plan, is_parent_tag,
  check_parent, check_tag, is_final_build,
}
use inverter_gateway.Manifest.Policy.Qualified.{IsText, policy_fields_obj}

pub text_value_str :
    (o : Option Json) (message : String) (s : Text) → text_value o message ≡ ok s → o ≡ some (str s)
text_value_str (some (str t)) message s h = ap (λ x. some (str x)) (ok-injective _ _ h)
text_value_str none message s h = absurd (cc)
text_value_str (some _) message s h = absurd (cc)

module _ (py : Python) where
  -- Where the policy has versions, the manifest's plan was validated against the policy and the commit,
  -- and is the plan of this tag and base version.
  abbrev pub IsPlanned : Fields → Fields → Text → Text → Type 0
  IsPlanned manifest policy source base =
      (is_truthy py (get policy (codes "versioning")) ≡ false)
      ⊎ ((plan : Plan) × (validate_plan py.valid_time py.sha256
              (value_or_none (get manifest (codes "version_plan"))) (some (obj policy))
              (some source)
            ≡ ok plan)
          × IsText manifest "tag" plan.tag
          × (plan.base_version ≡ base))

  pub check_plan-IsPlanned :
      (manifest policy : Fields) (source base : Text)
      → check_plan py manifest policy source base ≡ ok tt
      → IsPlanned manifest policy source base
  unfolding check_plan validate_manifest_plan
  check_plan-IsPlanned manifest policy source base h =
      if_cases (is_truthy py (get policy (codes "versioning"))) _ _ h
        (λ _ h1.
          bind_ok (validate_plan py.valid_time py.sha256 _ (some (obj policy)) (some source)) _ h1
            λ plan valid h2.
              let (front, _) =
                &&-true
                  (text_is (get manifest (codes "tag")) plan.tag
                    && text_is (get manifest (codes "channel")) (channel_name plan.channel)
                    && plan.base_version =t base)
                  _ (require_ok _ _ h2) in
              let (tag_and_channel, based) =
                &&-true
                  (text_is (get manifest (codes "tag")) plan.tag
                    && text_is (get manifest (codes "channel")) (channel_name plan.channel))
                  _ front in
              let (tagged, _) =
                &&-true (text_is (get manifest (codes "tag")) plan.tag) _ tag_and_channel in
              inr (plan, valid, text_is-eq _ _ tagged, =t→eq _ _ based))
        (λ plain _. inl plain)

  -- The manifest of a release candidate: its channel and its tag, of the base version.
  abbrev pub IsCandidate : Fields → Text → Text → Type 0
  IsCandidate manifest base rc_tag =
      IsText manifest "channel" (codes "rc")
      × IsText manifest "tag" rc_tag
      × (is_rc_tag base rc_tag ≡ true)

  -- The final manifest of a base version: it names a candidate of the same version and commit, whose run number does not equal its run_id.
  abbrev pub IsFinal : Fields → Text → Text → Text → Type 0
  IsFinal manifest source base rc_tag =
      IsText manifest "channel" (codes "stable")
      × IsText manifest "tag" rc_tag
      × (rc_tag ≡ codes "v" ++ base)
      × ((parent : Fields) × (get manifest (codes "derived_from_rc") ≡ some (obj parent))
          × (text_with (is_parent_tag py base) (get parent (codes "tag")) ≡ true)
          × IsText parent "source_sha" source
          × ((run : ℕ) × (positive (get parent (codes "run_id")) "Invalid parent RC run ID"
                ≡ ok run)
              × (py_eq (int run) (value_or_none (get manifest (codes "run_id"))) ≡ false)))

  pub check_tag-IsCandidate :
      (manifest : Fields) (base rc_tag : Text)
      → check_tag py manifest false base rc_tag ≡ ok tt
      → IsCandidate manifest base rc_tag
  unfolding check_tag
  check_tag-IsCandidate manifest base rc_tag h =
      guard_ok (text_is (get manifest (codes "channel")) (codes "rc")) _ _ h λ channel h1.
        let (tag, matches) =
          &&-true (text_is (get manifest (codes "tag")) rc_tag) _ (require_ok _ _ h1) in
        (text_is-eq _ _ channel, text_is-eq _ _ tag, matches)

  pub check_parent-IsFinal :
      (manifest policy : Fields) (source base rc_tag : Text)
      → text_is (get manifest (codes "channel")) (codes "stable") ≡ true
      → check_tag py manifest true base rc_tag ≡ ok tt
      → check_parent py manifest policy source base ≡ ok tt
      → IsFinal manifest source base rc_tag
  unfolding check_tag check_parent
  check_parent-IsFinal manifest policy source base rc_tag stable tagged h =
      let (tag, same) =
        &&-true (text_is (get manifest (codes "tag")) rc_tag) _ (require_ok _ _ tagged) in
      guard_ok
        (is_truthy py (get policy (codes "versioning"))
          && is_final_build (get policy (codes "versioning")))
        _ _ h
        λ _ h1.
          bind_ok (policy_fields (get manifest (codes "derived_from_rc")) _) _ h1 λ parent found h2.
            guard_ok (exactly parent_keys parent) _ _ h2 λ _ h3.
              guard_ok
                (text_with (is_parent_tag py base) (get parent (codes "tag"))
                  && text_is (get parent (codes "source_sha")) source
                  && text_with is_sha256 (get parent (codes "manifest_sha256")))
                _ _ h3
                λ t h4. bind_ok (positive (get parent (codes "run_id")) _) _ h4 λ run number h5.
                  let (ab, _) =
                    &&-true
                      (text_with (is_parent_tag py base) (get parent (codes "tag"))
                        && text_is (get parent (codes "source_sha")) source)
                      _ t in
                  let (parent_tag, sha) =
                    &&-true (text_with (is_parent_tag py base) (get parent (codes "tag"))) _ ab in
                  (
                    text_is-eq _ _ stable,
                    text_is-eq _ _ tag,
                    =t→eq _ _ same,
                    (
                      parent,
                      policy_fields_obj _ _ parent found,
                      parent_tag,
                      text_is-eq _ _ sha,
                      (run, number, not-true _ (require_ok _ _ h5)),
                    ),
                  )
