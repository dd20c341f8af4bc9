-- ===== src/Authority/Evidence/Matches.antt =====
-- The evidence that `verify_evidence` of scripts/release_control.py accepts.
use inverter_gateway.Prelude.{
  ℕ, ◌≤◌, true, Option, none, some, List, [], ◌∷◌, ◌++◌, ◌&&◌, ◌||◌, ◌≡◌, ap, ◌∙◌, Text, codes,
  ◌=t◌, =t→eq, leb, leb→le, &&-true, keep, String,
}
use inverter_gateway.Prelude.Result.{Result, ok, bind_ok, guard_ok, require_ok, ok-injective}
use inverter_gateway.Json.{Json, Fields, get}
use inverter_gateway.Json.Equality.{py_eq}
use inverter_gateway.Json.Texts.{text_is, text_is-eq, value_or_none}
use inverter_gateway.Plan.Declared.{present}
use inverter_gateway.Runs.Provenance.{positive}
use inverter_gateway.Manifest.Python.{Python}
use inverter_gateway.Manifest.Assets.{manifest_name}
use inverter_gateway.Manifest.Policy.Qualified.{IsText}
use inverter_gateway.Authority.Evidence.{
  Entry, evidence_path, is_evidence, workflow_run, run_field, one_artifact, is_file, one_entry,
  check_archive, verify_evidence,
}

module _ (py : Python) (digest : Text → Text) (infolist : Text → Result (List Entry)) where
  one_artifact_list :
      (items : List Fields) (item : Fields) → one_artifact py items ≡ ok item → items ≡ item ∷ []
  one_artifact_list (a ∷ []) item h = ap (λ x. x ∷ []) (ok-injective _ _ h)
  one_artifact_list [] item h = absurd (cc)
  one_artifact_list (a ∷ b ∷ items) item h = absurd (cc)

  one_entry_list :
      (entries : List Entry) (entry : Entry)
      → one_entry py entries ≡ ok entry
      → entries ≡ entry ∷ []
  one_entry_list (e ∷ []) entry h =
      guard_ok (e.filename =t manifest_name || e.filename =t evidence_path) _ _ h
        λ _ same. ap (λ x. x ∷ []) (ok-injective _ _ same)
  one_entry_list [] entry h = absurd (cc)
  one_entry_list (e ∷ f ∷ entries) entry h = absurd (cc)

  -- The archive has one file, of at most 2000000 bytes, with the content.
  abbrev pub IsArchive : Text → Text → Type 0
  IsArchive archive raw =
      (entries : List Entry) × (entry : Entry) × (infolist archive ≡ ok entries)
      × (keep (is_file py) entries ≡ entry ∷ [])
      × (entry.file_size ≤ 2_000_000)
      × (entry.content ≡ ok raw)

  check_archive-IsArchive :
      (archive raw : Text)
      → check_archive py digest infolist archive raw ≡ ok tt
      → IsArchive archive raw
  unfolding check_archive
  check_archive-IsArchive archive raw h = bind_ok (infolist archive) _ h λ entries opened h1.
      bind_ok (one_entry py (keep (is_file py) entries)) _ h1 λ entry only h2.
        guard_ok (leb entry.file_size 2_000_000) _ _ h2 λ small h3.
          bind_ok entry.content _ h3 λ content unpacked h4. (
            entries,
            entry,
            opened,
            one_entry_list _ entry only,
            leb→le entry.file_size 2_000_000 small,
            unpacked ∙ ap (λ c. ok c) (=t→eq _ _ (require_ok _ _ h4)),
          )

  -- The evidence artifact of the manifest's run.
  abbrev pub IsOfRun : Json → Fields → Fields → Type 0
  IsOfRun run_id manifest artifact =
      (run : Option Fields) × (get manifest (codes "run_id") ≡ some run_id)
      × (workflow_run py (get artifact (codes "workflow_run")) ≡ ok run)
      × (py_eq (run_field py run (codes "id")) run_id ≡ true)
      × (py_eq (run_field py run (codes "head_sha"))
            (value_or_none (get manifest (codes "source_sha")))
          ≡ true)

  -- The bytes of the manifest are those of the evidence.
  abbrev pub IsEvidenced :
      (Json → Result (List Fields)) → (ℕ → Result Text) → Fields → Text → Type 0
  IsEvidenced listed downloaded manifest raw =
      (run_id : Json) × (artifacts : List Fields) × (artifact : Fields) × (artifact_id : ℕ)
      × (archive : Text) × (listed run_id ≡ ok artifacts)
      × (keep (is_evidence py) artifacts ≡ artifact ∷ [])
      × IsOfRun run_id manifest artifact
      × (positive (get artifact (codes "id")) "Invalid artifact ID" ≡ ok artifact_id)
      × (downloaded artifact_id ≡ ok archive)
      × IsText artifact "digest" (codes "sha256:" ++ digest archive)
      × IsArchive archive raw

  present-some :
      (o : Option Json) (message : String) (value : Json)
      → present o message ≡ ok value
      → o ≡ some value
  present-some (some v) message value h = ap some (ok-injective _ _ h)
  present-some none message value h = absurd (cc)

  -- When verify_evidence accepts a manifest, exactly one of the artifacts that are listed for
  -- the manifest's run is unexpired and named release-evidence, the artifact's run and commit
  -- are the manifest's, its digest is the SHA-256 of the archive that was downloaded under the
  -- artifact's ID, and the one file in the archive, of at most 2000000 bytes, has exactly the
  -- bytes of the manifest.
  pub verify_evidence-IsEvidenced :
      (listed : Json → Result (List Fields)) (downloaded : ℕ → Result Text) (manifest : Fields)
      (raw : Text)
      → verify_evidence py digest infolist listed downloaded manifest raw ≡ ok tt
      → IsEvidenced listed downloaded manifest raw
  unfolding verify_evidence
  verify_evidence-IsEvidenced listed downloaded manifest raw h =
      bind_ok (present (get manifest (codes "run_id")) _) _ h λ run_id named h1.
        bind_ok (listed run_id) _ h1 λ artifacts read h2.
          bind_ok (one_artifact py (keep (is_evidence py) artifacts)) _ h2 λ artifact only h3.
            bind_ok (workflow_run py (get artifact (codes "workflow_run"))) _ h3 λ run of_run h4.
              guard_ok
                (py_eq (run_field py run (codes "id")) run_id
                  && py_eq (run_field py run (codes "head_sha"))
                      (value_or_none (get manifest (codes "source_sha"))))
                _ _ h4
                λ t h5.
                  bind_ok (positive (get artifact (codes "id")) _) _ h5 λ artifact_id numbered h6.
                    bind_ok (downloaded artifact_id) _ h6 λ archive got h7.
                      guard_ok
                        (text_is (get artifact (codes "digest"))
                          (codes "sha256:" ++ digest archive))
                        _ _ h7
                        λ hashed h8.
                          let (same_id, same_sha) =
                            &&-true (py_eq (run_field py run (codes "id")) run_id) _ t in
                          (
                            run_id,
                            artifacts,
                            artifact,
                            artifact_id,
                            archive,
                            read,
                            one_artifact_list _ artifact only,
                            (run, present-some _ _ run_id named, of_run, same_id, same_sha),
                            numbered,
                            got,
                            text_is-eq _ _ hashed,
                            check_archive-IsArchive archive raw h8,
                          )
