-- ===== src/Authority/Evidence.antt =====
-- `verify_evidence` and `require_reviewers` of scripts/release_control.py, on what GitHub answers. A ZIP archive is
-- opened by the standard library: `infolist` gives its entries, or an exception.
pub mod Matches
use inverter_gateway.Prelude.{
  ℕ, Bool, true, false, not, Option, none, some, List, [], ◌∷◌, ◌++◌, ◌&&◌, ◌||◌, if◌then◌else◌,
  Text, codes, ◌=t◌, leb, any, keep,
}
use inverter_gateway.Prelude.Result.{Result, ok, err, require, ◌>>=◌, ◌>>◌}
use inverter_gateway.Json.{Json, Fields, str, arr, obj, get, to_list}
use inverter_gateway.Json.Equality.{py_eq}
use inverter_gateway.Json.Texts.{text_is, value_or_none}
use inverter_gateway.Plan.Declared.{present}
use inverter_gateway.Runs.Provenance.{positive}
use inverter_gateway.Manifest.Python.{Python, is_truthy}
use inverter_gateway.Manifest.Assets.{manifest_name}
use inverter_gateway.Manifest.Policy.{policy_fields}

pub record Entry : Type 0 where
  pub filename : Text
  pub is_dir : Bool
  pub file_size : ℕ
  pub content : Result Text

-- `EVIDENCE`
abbrev pub evidence_path : Text
evidence_path = codes ".release-evidence/release-manifest.json"

module _ (py : Python) where
  abbrev pub is_evidence : Fields → Bool
  is_evidence item =
      text_is (get item (codes "name")) (codes "release-evidence")
      && not (is_truthy py (get item (codes "expired")))

  abbrev pub workflow_run : Option Json → Result (Option Fields)
  workflow_run none = ok none
  workflow_run (some (obj run)) = ok (some run)
  workflow_run (some _) = err "AttributeError"

  abbrev pub run_field : Option Fields → Text → Json
  run_field none key = value_or_none none
  run_field (some run) key = value_or_none (get run key)

  abbrev pub one_artifact : List Fields → Result Fields
  one_artifact (item ∷ []) = ok item
  one_artifact _ = err "Exactly one unexpired immutable release-evidence artifact is required"

  abbrev pub is_file : Entry → Bool
  is_file entry = not entry.is_dir

  abbrev pub one_entry : List Entry → Result Entry
  one_entry (entry ∷ []) = do
    require (entry.filename =t manifest_name || entry.filename =t evidence_path)
        "Evidence artifact has unexpected contents"
    ok entry
  one_entry _ = err "Evidence artifact has unexpected contents"

  module _ (digest : Text → Text) (infolist : Text → Result (List Entry)) where
    -- the contents of the archive
    unfoldable pub check_archive : Text → Text → Result (Unit {0})
    check_archive archive raw = do
      entries ← infolist archive
      entry ← one_entry (keep is_file entries)
      require (leb entry.file_size 2_000_000) "Evidence artifact manifest is too large"
      content ← entry.content
      require (content =t raw) "Release manifest differs from immutable Actions evidence"

    -- `verify_evidence`: GitHub answers with the artifacts of a run and with the archive of an ID
    unfoldable pub verify_evidence :
        (Json → Result (List Fields)) → (ℕ → Result Text) → Fields → Text → Result (Unit {0})
    verify_evidence listed downloaded manifest raw = do
      run_id ← present (get manifest (codes "run_id")) "KeyError"
      artifacts ← listed run_id
      artifact ← one_artifact (keep is_evidence artifacts)
      run ← workflow_run (get artifact (codes "workflow_run"))
      require
          (py_eq (run_field run (codes "id")) run_id
            && py_eq (run_field run (codes "head_sha"))
                (value_or_none (get manifest (codes "source_sha"))))
          "Evidence artifact provenance mismatch"
      artifact_id ← positive (get artifact (codes "id")) "Invalid artifact ID"
      archive ← downloaded artifact_id
      require (text_is (get artifact (codes "digest")) (codes "sha256:" ++ digest archive))
          "Evidence must have a matching immutable v4 artifact digest"
      check_archive archive raw

  abbrev pub is_reviewer_rule : Json → Bool
  is_reviewer_rule (obj rule) =
      text_is (get rule (codes "type")) (codes "required_reviewers")
      && is_truthy py (get rule (codes "reviewers"))
  is_reviewer_rule _ = false

  abbrev pub rule_list : Option Json → Result (List Json)
  rule_list none = ok []
  rule_list (some (arr rules)) = ok (to_list rules)
  rule_list (some _) = err "TypeError"

  -- `require_reviewers`; the rules are dictionaries
  unfoldable pub require_reviewers : Result Json → Result (Unit {0})
  require_reviewers answer = do
    value ← answer
    environment ← policy_fields (some value) "AttributeError"
    require (text_is (get environment (codes "name")) (codes "release"))
        "Protected release environment is missing"
    rules ← rule_list (get environment (codes "protection_rules"))
    require (any is_reviewer_rule rules)
        "The release environment must have required reviewers configured"
