-- ===== src/Examples/AuthorityFacts.antt =====
-- A beta run that a later push replaces, and the evidence of a candidate: the theorems of Authority at them.
use inverter_gateway.Prelude.{
  ℕ, ◌≡◌, refl, true, false, List, [], ◌∷◌, ◌=t◌, ◌==◌, if◌then◌else◌, Text, codes, String, show,
}
use inverter_gateway.Prelude.Result.{Result, ok, err}
use inverter_gateway.Json.{Json, Fields, boolean, int, str, obj, arr, nil, cons, end, field, get}
use inverter_gateway.Json.Equality.{py_eq}
use inverter_gateway.Plan.Patterns.{is_sha}
use inverter_gateway.Runs.Gate.{workflow}
use inverter_gateway.Runs.Provenance.{validate_run_provenance}
use inverter_gateway.Manifest.Assets.{manifest_name}
use inverter_gateway.Manifest.Policy.Qualified.{IsText}
use inverter_gateway.Publish.Preflight.{repository_info, head_of}
use inverter_gateway.Authority.Superseded.{
  is_automatic, Answers, successor_of, check_newer, proven_successor, superseded_result,
  against_successor, check_superseded, superseded_candidate,
}
use inverter_gateway.Authority.Superseded.Proven.{IsSuperseded, superseded_candidate-IsSuperseded}
use inverter_gateway.Authority.Evidence.{Entry, check_archive, verify_evidence}
use inverter_gateway.Authority.Evidence.Matches.{IsEvidenced, verify_evidence-IsEvidenced}
use inverter_gateway.Examples.Values.{sample_sha}
use inverter_gateway.Examples.ManifestFacts.{one_document}

-- Opening this opens the checks, so that they run on concrete answers.
unfoldable authority_code : Unit {0}
unfolding ◌=t◌ get py_eq show is_sha validate_run_provenance repository_info head_of is_automatic
    successor_of check_newer proven_successor superseded_result against_successor check_superseded
    superseded_candidate check_archive verify_evidence
authority_code = tt

abbrev text_field : String → String → Fields → Fields
text_field key value rest = field (codes key) (str (codes value)) rest

abbrev same : Text → Text
same text = text

abbrev new_head : Text
new_head = codes "bbbbbbbbbbbbbbbbbbbbbbbbbbbbbbbbbbbbbbbb"

abbrev branch_info : Fields
branch_info = text_field "default_branch" "main" (text_field "full_name" "o/r" end)

abbrev pushed_run : ℕ → Text → Fields
pushed_run id sha = field (codes "id") (int id) (
    field (codes "run_number") (int id) (
      field (codes "run_attempt") (int 1) (
        field (codes "head_sha") (str sha) (
          field (codes "path") (str workflow) (
            text_field "head_branch" "main" (
              text_field "event" "push" (
                text_field "status" "queued" (
                  field (codes "repository") (obj branch_info)
                    (field (codes "head_repository") (obj branch_info) end)))))))))

abbrev head_ref : Json
head_ref = obj (
    text_field "ref" "refs/heads/main" (
      field (codes "object")
        (obj (text_field "type" "commit" (field (codes "sha") (str new_head) end))) end))

abbrev compared : Text → Text → Result Json
compared source head =
    if head =t new_head
    then ok (
        obj (
          text_field "status" "ahead"
            (field (codes "merge_base_commit") (obj (field (codes "sha") (str source) end)) end)))
    else err "not compared"

abbrev push_runs : Text → Text → Result Json
push_runs branch head =
    if head =t new_head
    then ok (
        obj (
          field (codes "total_count") (int 1)
            (field (codes "workflow_runs") (arr (cons (obj (pushed_run 9 new_head)) nil)) end)))
    else ok
        (obj (field (codes "total_count") (int 0) (field (codes "workflow_runs") (arr nil) end)))

abbrev moved_branch : Answers
moved_branch = record {
  info = ok (obj branch_info);
  ref = λ branch. ok head_ref;
  comparison = compared;
  replacement = push_runs;
  ref_again = λ branch. ok head_ref;
}

abbrev superseded_by_nine : Fields
superseded_by_nine = text_field "status" "superseded" (
    field (codes "source_sha") (str sample_sha) (
      field (codes "superseded_by") (str new_head) (
        text_field "successor_run_id" "9"
          (text_field "successor_run_url" "https://github.com/o/r/actions/runs/9" end))))

superseded_candidate-IsSuperseded_example :
    ((event : Text) × IsText (pushed_run 7 sample_sha) "event" event
      × (is_automatic event (codes "beta") ≡ true))
    × IsSuperseded same
        (codes "o/r")
        moved_branch
        branch_info
        (pushed_run 7 sample_sha)
        superseded_by_nine
unfolding authority_code
superseded_candidate-IsSuperseded_example =
    superseded_candidate-IsSuperseded same (codes "o/r") moved_branch branch_info
      (pushed_run 7 sample_sha) (codes "beta") superseded_by_nine refl

abbrev stored_entries : Text → Result (List Entry)
stored_entries archive = ok (
    record { filename = codes "folder/"; is_dir = true; file_size = 0; content = err "a directory" }
    ∷ record { filename = manifest_name; is_dir = false; file_size = 2; content = ok (codes "{}") }
    ∷ [])

abbrev evidence_rows : List Fields
evidence_rows =
    text_field "name" "logs" end
    ∷ text_field "name" "release-evidence" (
        field (codes "expired") (boolean false) (
          field (codes "id") (int 3) (
            text_field "digest" "sha256:zip" (
              field (codes "workflow_run")
                (obj (field (codes "id") (int 7) (field (codes "head_sha") (str sample_sha) end)))
                end))))
    ∷ []

abbrev evidence_manifest : Fields
evidence_manifest = field (codes "run_id") (int 7) (field (codes "source_sha") (str sample_sha) end)

-- The artifacts of run 7, and the archive of artifact 3.
abbrev run_artifacts : Json → Result (List Fields)
run_artifacts (int n) = if n == 7 then ok evidence_rows else ok []
run_artifacts _ = err "no run"

abbrev stored_archive : ℕ → Result Text
stored_archive n = if n == 3 then ok (codes "zip") else err "no artifact"

verify_evidence-IsEvidenced_example :
    IsEvidenced one_document same stored_entries run_artifacts stored_archive evidence_manifest
      (codes "{}")
unfolding authority_code
verify_evidence-IsEvidenced_example =
    verify_evidence-IsEvidenced one_document same stored_entries run_artifacts stored_archive
      evidence_manifest (codes "{}") refl
