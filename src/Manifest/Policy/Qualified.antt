-- ===== src/Manifest/Policy/Qualified.antt =====
-- What a policy that `validate_policy_snapshot` and `validate_validation_manifest` of scripts/release_control.py
-- accept promises.
use inverter_gateway.Prelude.{
  true, Option, none, some, List, [], ◌∷◌, ◌&&◌, ◌≡◌, refl, sym, ap, ◌∙◌, ◌⊎◌, inl, inr, Text,
  codes, ◌=t◌, =t→eq, all, String,
}
use inverter_gateway.Prelude.Result.{ok, require, bind_ok, guard_ok, ok-injective}
use inverter_gateway.Json.{Json, Fields, nil, cons, null, str, arr, obj, get, to_list}
use inverter_gateway.Json.Texts.{text_is, text_is-eq, value_or_none}
use inverter_gateway.Plan.Patterns.{is_sha, is_sha256}
use inverter_gateway.Manifest.Python.{Python, is_schema_one}
use inverter_gateway.Manifest.Fuzz.{require_fuzzing_policy}
use inverter_gateway.Manifest.Policy.{
  text_with, policy_fields, policy_of, policy_path, checked_workflows, blocker_list, is_blocker,
  is_none_left, check_blockers, require_release_policy, validate_policy_snapshot,
  validation_profile, validate_validation_manifest,
}

abbrev pub IsText : Fields → String → Text → Type 0
IsText fields key s = get fields (codes key) ≡ some (str s)

-- The list of blockers is missing or empty.
abbrev pub IsClear : Fields → String → Type 0
IsClear policy key = (get policy (codes key) ≡ none) ⊎ (get policy (codes key) ≡ some (arr nil))

-- The policy that the manifest carries, for release and without blockers.
abbrev pub IsQualified : Fields → Fields → Type 0
IsQualified manifest policy =
    (policy_of manifest ≡ ok policy)
    × IsText policy "mode" (codes "release")
    × IsClear policy "release_blockers"
    × IsClear policy "stable_blockers"

pub policy_fields_obj :
    (o : Option Json) (message : String) (fields : Fields)
    → policy_fields o message ≡ ok fields
    → o ≡ some (obj fields)
policy_fields_obj (some (obj policy)) message fields h = ap (λ x. some (obj x)) (ok-injective _ _ h)
policy_fields_obj none message fields h = absurd (cc)
policy_fields_obj (some _) message fields h = absurd (cc)

known_policy :
    (manifest snapshot policy : Fields)
    → get manifest (codes "source_policy") ≡ some (obj snapshot)
    → get snapshot (codes "data") ≡ some (obj policy)
    → policy_of manifest ≡ ok policy
unfolding policy_of
known_policy manifest snapshot policy hs hd = rw (hs, hd) refl

module _ (py : Python) where
  check_blockers-IsClear :
      (policy : Fields) (key : String)
      → check_blockers py policy true (codes key) ≡ ok tt
      → IsClear policy key
  unfolding check_blockers
  check_blockers-IsClear policy key h =
      bind_ok (blocker_list py (get policy (codes key))) _ h
        λ blockers listed h1. listed_empty (get policy (codes key)) blockers listed h1
    where
      listed_empty :
          (o : Option Json) (blockers : List Json)
          → blocker_list py o ≡ ok blockers
          → require (is_none_left blockers) "Source policy has unresolved blockers" ≡ ok tt
          → (o ≡ none) ⊎ (o ≡ some (arr nil))
      listed_empty none blockers listed h = inl refl
      listed_empty (some (arr nil)) blockers listed h = inr refl
      listed_empty (some (arr (cons x xs))) [] listed h =
          guard_ok (all (is_blocker py) (x ∷ to_list xs)) _ _ listed λ _ same. absurd (cc)
      listed_empty (some (arr (cons x xs))) (b ∷ bs) listed h = absurd (cc)
      listed_empty (some null) blockers listed h = absurd (cc)
      listed_empty (some _) blockers listed h = absurd (cc)

  pub validate_policy_snapshot-IsQualified :
      (manifest : Fields) (repo : Text)
      → validate_policy_snapshot py (get manifest (codes "source_policy")) repo ≡ ok tt
      → (policy : Fields) × IsQualified manifest policy
  unfolding validate_policy_snapshot require_release_policy
  validate_policy_snapshot-IsQualified manifest repo h =
      bind_ok (policy_fields (get manifest (codes "source_policy")) _) _ h λ snapshot found h1.
        guard_ok
          (is_schema_one (get snapshot (codes "schema"))
            && text_is (get snapshot (codes "path")) policy_path)
          _ _ h1
          λ _ h2.
            guard_ok
              (text_with is_sha (get snapshot (codes "git_blob_sha"))
                && text_with is_sha256 (get snapshot (codes "sha256")))
              _ _ h2
              λ _ h3.
                bind_ok (policy_fields (get snapshot (codes "data")) _) _ h3 λ policy listed h4.
                  guard_ok
                    (text_with (λ name. py.lower name =t py.lower repo)
                      (get policy (codes "repository")))
                    _ _ h4
                    λ _ h5.
                      guard_ok (text_is (get policy (codes "mode")) (codes "release")) _ _ h5
                        λ mode h6. bind_ok (require_fuzzing_policy policy) _ h6 λ _ _ h7.
                          bind_ok (checked_workflows policy) _ h7 λ _ _ h8.
                            bind_ok (check_blockers py policy true (codes "release_blockers")) _ h8
                              λ _ first second. (
                                policy,
                                (
                                  known_policy manifest snapshot policy
                                      (policy_fields_obj _ _ snapshot found)
                                      (policy_fields_obj _ _ policy listed),
                                  text_is-eq _ _ mode,
                                  check_blockers-IsClear policy "release_blockers" first,
                                  check_blockers-IsClear policy "stable_blockers" second,
                                ),
                              )

  -- The validation profile of the manifest is the one that the policy has for the channel.
  abbrev pub IsProfiled : Fields → Fields → Text → Type 0
  IsProfiled manifest policy channel =
      (expected : Option Json) × (validation_profile policy channel ≡ ok expected)
      × (py.json_bytes (value_or_none (get manifest (codes "validation_profile")))
          ≡ py.json_bytes (value_or_none expected))

  pub validate_validation_manifest-IsProfiled :
      (manifest policy : Fields) (channel : Text)
      → policy_of manifest ≡ ok policy
      → validate_validation_manifest py.json_bytes manifest channel ≡ ok tt
      → IsProfiled manifest policy channel
  unfolding validate_validation_manifest
  validate_validation_manifest-IsProfiled manifest policy channel known h =
      bind_ok (policy_of manifest) _ h λ found same h1.
        bind_ok (validation_profile found channel) _ h1 λ expected profiled h2.
          guard_ok
            (py.json_bytes (value_or_none (get manifest (codes "validation_profile")))
              =t py.json_bytes (value_or_none expected))
            _ _ h2
            λ equal _. (
              expected,
              ap (λ p. validation_profile p channel) (ok-injective _ _ (sym known ∙ same))
                  ∙ profiled,
              =t→eq _ _ equal,
            )
