-- ===== src/Manifest/Accept/Bound.antt =====
-- What a manifest that `validate_manifest` of scripts/release_control.py accepts is bound to.
use inverter_gateway.Prelude.{
  ◌≤◌, Bool, true, false, some, if◌then◌else◌, ◌≡◌, refl, sym, ap, ◌∙◌, subst, ◌⊎◌, inl, inr, Text,
  codes, ◌=t◌, leb, leb→le, length, &&-true, some_injective,
}
use inverter_gateway.Prelude.Result.{ok, bind_ok, guard_ok, ok-injective}
use inverter_gateway.Json.{Fields, obj, get}
use inverter_gateway.Json.Texts.{text_is}
use inverter_gateway.Plan.Patterns.{is_base, is_sha}
use inverter_gateway.Runs.Gate.{workflow}
use inverter_gateway.Runs.Provenance.{positive}
use inverter_gateway.Manifest.Python.{Python, is_schema_one}
use inverter_gateway.Manifest.Assets.Inventory.{IsInventory, validate_manifest_assets-IsInventory}
use inverter_gateway.Manifest.Policy.{
  text_with, policy_fields, policy_of, validate_policy_snapshot, validate_validation_manifest,
}
use inverter_gateway.Manifest.Accept.{
  text_value, check_plan, check_parent, check_tag, is_final, channel_text, validate_release,
  validate_manifest,
}
use inverter_gateway.Manifest.Policy.Qualified.{
  IsText, IsQualified, policy_fields_obj, validate_policy_snapshot-IsQualified, IsProfiled,
  validate_validation_manifest-IsProfiled,
}
use inverter_gateway.Manifest.Accept.Kinds.{
  text_value_str, IsPlanned, check_plan-IsPlanned, IsCandidate, check_tag-IsCandidate, IsFinal,
  check_parent-IsFinal,
}

module _ (py : Python) where
  -- What an accepted manifest is bound to.
  abbrev pub IsBound : Fields → Text → Bool → Text → Type 0
  IsBound manifest rc_tag final base =
      (source : Text) × (policy : Fields) × IsText manifest "source_sha" source
      × (is_sha source ≡ true)
      × (((final ≡ false) × IsCandidate py manifest base rc_tag)
          ⊎ ((final ≡ true) × IsFinal py manifest source base rc_tag))
      × IsQualified manifest policy
      × IsProfiled py manifest policy (channel_text py final)
      × IsPlanned py manifest policy source base
      × IsInventory py.casefold manifest

  kind_of_release :
      (manifest policy : Fields) (source base rc_tag : Text) (final : Bool)
      → (final ≡ true → text_is (get manifest (codes "channel")) (codes "stable") ≡ true)
      → check_tag py manifest final base rc_tag ≡ ok tt
      → (if final then check_parent py manifest policy source base else ok tt) ≡ ok tt
      → ((final ≡ false) × IsCandidate py manifest base rc_tag)
        ⊎ ((final ≡ true) × IsFinal py manifest source base rc_tag)
  kind_of_release manifest policy source base rc_tag true stable tagged h =
      inr (refl, check_parent-IsFinal py manifest policy source base rc_tag (stable refl) tagged h)
  kind_of_release manifest policy source base rc_tag false stable tagged h =
      inl (refl, check_tag-IsCandidate py manifest base rc_tag tagged)

  validate_release-IsBound :
      (manifest : Fields) (repo rc_tag : Text) (final : Bool) (base : Text)
      → (final ≡ true → text_is (get manifest (codes "channel")) (codes "stable") ≡ true)
      → validate_release py manifest repo rc_tag final base ≡ ok tt
      → IsBound manifest rc_tag final base
  unfolding validate_release
  validate_release-IsBound manifest repo rc_tag final base stable h =
      bind_ok (check_tag py manifest final base rc_tag) _ h λ _ tagged h1.
        bind_ok (text_value (get manifest (codes "source_sha")) _) _ h1 λ source found h2.
          guard_ok (is_sha source) _ _ h2 λ hex h3.
            guard_ok (text_is (get manifest (codes "workflow_path")) workflow) _ _ h3 λ _ h4.
              bind_ok (positive (get manifest (codes "run_id")) _) _ h4 λ _ _ h5.
                bind_ok (positive (get manifest (codes "run_attempt")) _) _ h5 λ _ _ h6.
                  bind_ok (validate_policy_snapshot py (get manifest (codes "source_policy")) repo)
                    _ h6
                    λ _ qualified h7.
                      bind_ok
                        (validate_validation_manifest py.json_bytes manifest
                          (channel_text py final))
                        _ h7
                        λ _ profiled h8. bind_ok (policy_of manifest) _ h8 λ policy known h9.
                          bind_ok (check_plan py manifest policy source base) _ h9 λ _ planned h10.
                            bind_ok
                              (if final then check_parent py manifest policy source base else ok tt)
                              _ h10
                              λ _ parent assets.
                                let (snapshot_policy, q) =
                                  validate_policy_snapshot-IsQualified py manifest repo qualified in
                                let same : snapshot_policy ≡ policy =
                                  ok-injective _ _ (sym (q.0) ∙ known) in
                                (
                                  source,
                                  policy,
                                  text_value_str _ _ source found,
                                  hex,
                                  kind_of_release manifest policy source base rc_tag final stable
                                      tagged parent,
                                  subst (IsQualified manifest) same q,
                                  validate_validation_manifest-IsProfiled py manifest policy
                                      (channel_text py final) known profiled,
                                  check_plan-IsPlanned py manifest policy source base planned,
                                  (validate_manifest_assets-IsInventory py.casefold manifest).0
                                      assets,
                                )

  -- A manifest that validate_manifest accepts is the decoded JSON of at most 2000000 bytes and has a base version, a
  -- source commit and an inventory of safe assets. Either it is a candidate, whose tag is the requested one and numbers the base version, or, where
  -- a final manifest is allowed, it is the stable manifest tagged v and the base version, derived from a candidate of this version and commit whose run number does
  -- not equal its run_id. Its policy is in release mode with no blockers, its validation profile is the policy's, and, where the
  -- policy has versions, its plan was validated against the policy and the commit and has its tag and base version.
  pub validate_manifest-IsBound :
      (raw repo rc_tag : Text) (allow_final : Bool) (manifest : Fields)
      → validate_manifest py raw repo rc_tag allow_final ≡ ok manifest
      → (py.loads raw ≡ ok (obj manifest))
        × (length raw ≤ 2_000_000)
        × ((base : Text) × IsText manifest "version" base
            × (is_base base ≡ true)
            × IsBound manifest rc_tag (is_final py allow_final manifest) base)
  unfolding validate_manifest
  validate_manifest-IsBound raw repo rc_tag allow_final manifest h =
      guard_ok (leb (length raw) 2_000_000) _ _ h λ small h1.
        bind_ok (py.loads raw) _ h1 λ value loaded h2.
          bind_ok (policy_fields (some value) _) _ h2 λ found dict h3.
            guard_ok (is_schema_one (get found (codes "schema"))) _ _ h3 λ _ h4.
              guard_ok
                (text_with (λ name. py.lower name =t py.lower repo)
                  (get found (codes "repository")))
                _ _ h4
                λ _ h5. bind_ok (text_value (get found (codes "version")) _) _ h5 λ base named h6.
                  guard_ok (is_base base) _ _ h6 λ numbered h7.
                    bind_ok
                      (validate_release py found repo rc_tag (is_final py allow_final found) base) _
                      h7
                      λ _ released h8.
                        let same : found ≡ manifest = ok-injective _ _ h8 in
                        subst
                          (λ (m : Fields).
                            (py.loads raw ≡ ok (obj m))
                            × (length raw ≤ 2_000_000)
                            × ((base : Text) × IsText m "version" base
                                × (is_base base ≡ true)
                                × IsBound m rc_tag (is_final py allow_final m) base))
                          same
                          (
                            loaded ∙ ap ok (some_injective (policy_fields_obj _ _ found dict)),
                            leb→le (length raw) 2_000_000 small,
                            (
                              base,
                              text_value_str _ _ base named,
                              numbered,
                              validate_release-IsBound found repo rc_tag
                                  (is_final py allow_final found) base
                                  (λ final. (&&-true allow_final _ final).1) released,
                            ),
                          )
