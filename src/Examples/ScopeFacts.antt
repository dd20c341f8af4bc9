-- ===== src/Examples/ScopeFacts.antt =====
-- A push that changes the README alone, and the theorem of Scope at it.
use inverter_gateway.Prelude.{
  ◌+◌, false, Option, some, [], ◌∷◌, ◌++◌, ◌≡◌, refl, Text, codes, map, ◌&&◌, leb, if◌then◌else◌,
  ◌=t◌,
}
use inverter_gateway.Prelude.Result.{ok}
use inverter_gateway.Json.{str, obj, field, end, get}
use inverter_gateway.Plan.Patterns.{is_sha, split_on}
use inverter_gateway.Scope.Paths.{
  parts_of, is_absolute, join, literal_path, last_dot, suffix_of, stem_of, document_name,
  is_protected, documentation_path,
}
use inverter_gateway.Scope.Diff.{
  words_of, expected_modes, is_ascii, classify_path, classify_fields, classify_record,
  classify_records, before_nul, classify_diff,
}
use inverter_gateway.Scope.Classify.{
  item, revision_value, event_revisions, trim_end, trim_start, strip, Git, Scope, classify_range,
  classify,
}
use inverter_gateway.Scope.Safety.{IsSkippable, classify-skip}

-- Opening this opens the classification, so that it runs on concrete values.
unfoldable scope_code : Unit {0}
unfolding ◌=t◌ is_sha split_on parts_of is_absolute join literal_path last_dot suffix_of stem_of
    document_name is_protected documentation_path words_of expected_modes is_ascii classify_path
    classify_fields classify_record classify_records before_nul classify_diff item revision_value
    event_revisions trim_end trim_start strip classify_range classify get
scope_code = tt

-- `str.lower` and `bytes.decode` on ASCII
abbrev ascii_lower : Text → Text
ascii_lower = map (λ c. if leb b'A' c && leb c b'Z' then c + 32 else c)

abbrev ascii_text : Text → Option Text
ascii_text bytes = some bytes

abbrev base_sha : Text
base_sha = codes "aaaaaaaaaaaaaaaaaaaaaaaaaaaaaaaaaaaaaaaa"

abbrev head_sha : Text
head_sha = codes "bbbbbbbbbbbbbbbbbbbbbbbbbbbbbbbbbbbbbbbb"

abbrev record_header : Text
record_header = codes ":100644 100644 " ++ base_sha ++ b' ' ∷ (head_sha ++ codes " M")

abbrev sample_git : Text → Git
sample_git path = record {
  shallow = ok (codes "false" ++ 10 ∷ []);
  commit_type = λ revision. ok (codes "commit" ++ 10 ∷ []);
  diff = λ range. ok (record_header ++ 0 ∷ (path ++ 0 ∷ []));
}

abbrev sample_scope : Scope
sample_scope = record {
  event_name = codes "push";
  event = obj (field (codes "before") (str base_sha) (field (codes "after") (str head_sha) end));
  documentation_paths = [];
  required_paths = codes "docs/contract.md" ∷ [];
  force = false;
}

classify_readme :
    (classify ascii_lower ascii_text (sample_git (codes "README.md")) sample_scope).run ≡ false
unfolding scope_code
classify_readme = refl

classify_required :
    (classify ascii_lower ascii_text (sample_git (codes "docs/contract.md")) sample_scope).reason
    ≡ "required-path-change"
unfolding scope_code
classify_required = refl

classify_protected :
    (classify ascii_lower ascii_text (sample_git (codes "docs/Scripts/a.md")) sample_scope).reason
    ≡ "non-documentation-change"
unfolding scope_code
classify_protected = refl

classify-skip_example :
    IsSkippable ascii_lower ascii_text (sample_git (codes "README.md")) sample_scope
classify-skip_example =
    classify-skip ascii_lower ascii_text (sample_git (codes "README.md")) sample_scope
      classify_readme
