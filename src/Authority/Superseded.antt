-- ===== src/Authority/Superseded.antt =====
-- `check_ancestry`, `superseded_candidate` and `closed_push_cycle` of scripts/release_control.py, on what GitHub answers.
pub mod Proven
use inverter_gateway.Prelude.{
  ℕ, Bool, true, false, not, Option, none, some, List, [], ◌∷◌, ◌++◌, ◌&&◌, ◌||◌, if◌then◌else◌,
  Text, codes, ◌=t◌, ltb, show, String, ◌==◌,
}
use inverter_gateway.Prelude.Result.{Result, ok, err, require, ◌>>=◌, ◌>>◌}
use inverter_gateway.Json.{
  Json, Fields, Items, nil, cons, null, int, str, arr, obj, end, field, get,
}
use inverter_gateway.Json.Equality.{py_eq}
use inverter_gateway.Json.Texts.{text_is, value_or_none}
use inverter_gateway.Plan.Patterns.{is_base, is_sha}
use inverter_gateway.Plan.Declaration.{one_of}
use inverter_gateway.Runs.Gate.{is_active}
use inverter_gateway.Runs.Provenance.{positive, validate_run_provenance}
use inverter_gateway.Manifest.Policy.{policy_fields, text_with}
use inverter_gateway.Publish.Preflight.{text_of, repository_info, head_of}

-- `d.get("merge_base_commit", {}).get("sha") == sha`
abbrev pub has_merge_base : Option Json → Text → Bool
has_merge_base (some (obj commit)) sha = text_is (get commit (codes "sha")) sha
has_merge_base _ sha = false

abbrev pub is_ahead_or_identical : Option Json → Bool
is_ahead_or_identical (some (str s)) = one_of (codes "ahead" ∷ codes "identical" ∷ []) s
is_ahead_or_identical _ = false

-- `check_ancestry`
unfoldable pub check_ancestry : Result Json → Text → Result (Unit {0})
check_ancestry answer sha = do
  value ← answer
  comparison ← policy_fields (some value) "AttributeError"
  require (is_ahead_or_identical (get comparison (codes "status")))
      "Source commit is not an ancestor of the current default branch"
  require (has_merge_base (get comparison (codes "merge_base_commit")) sha)
      "Source/default branch ancestry could not be verified"

-- the events and channels that are automatic
unfoldable pub is_automatic : Text → Text → Bool
is_automatic event channel =
    (event =t codes "push" && channel =t codes "beta")
    || (event =t codes "schedule" && channel =t codes "nightly")

-- What GitHub answers, in the order of the reads: the repository, the head of a branch, the
-- comparison of two commits, the push runs of a branch at a commit, and the head again.
pub record Answers : Type 0 where
  pub info : Result Json
  pub ref : Text → Result Json
  pub comparison : Text → Text → Result Json
  pub replacement : Text → Text → Result Json
  pub ref_again : Text → Result Json

abbrev pub one_run : Option Json → Result Fields
one_run (some (arr (cons (obj run) nil))) = ok run
one_run _ = err "Default branch advanced without one proven replacement release run"

abbrev pub is_one_count : Option Json → Bool
is_one_count (some (int n)) = n == 1
is_one_count _ = false

unfoldable pub successor_of : Result Json → Result Fields
successor_of answer = do
  value ← answer
  replacement ←
      policy_fields (some value)
        "Default branch advanced without one proven replacement release run"
  require (is_one_count (get replacement (codes "total_count")))
      "Default branch advanced without one proven replacement release run"
  one_run (get replacement (codes "workflow_runs"))

abbrev pub is_known_status : Option Json → Bool
is_known_status status = is_active status || text_is status (codes "completed")

-- The number of one run is above that of another.
unfoldable pub check_newer : Fields → Fields → String → Result (Unit {0})
check_newer successor run key = do
  later ← positive (get successor (codes key)) "Invalid successor"
  earlier ← positive (get run (codes key)) "Invalid source"
  require (ltb earlier later)
      "Replacement must be a newer automatic run of the default-branch release workflow"

module _ (lower : Text → Text) (repo : Text) where
  -- the comparison and the successor, for a HEAD that is not the source
  unfoldable pub proven_successor : Answers → Fields → Fields → Text → Text → Text → Result Fields
  proven_successor answers info run branch source head = do
    compared ← answers.comparison source head
    comparison ← policy_fields (some compared) "Automatic release source is not a verified ancestor"
    require
        (text_is (get comparison (codes "status")) (codes "ahead")
          && has_merge_base (get comparison (codes "merge_base_commit")) source)
        "Automatic release source is not a verified ancestor"
    successor ← successor_of (answers.replacement branch head)
    attempt ← positive (get successor (codes "run_attempt")) "Invalid run attempt"
    validate_run_provenance lower repo successor info head attempt
    require (text_is (get successor (codes "event")) (codes "push"))
        "Replacement must be a newer automatic run of the default-branch release workflow"
    check_newer successor run "id"
    check_newer successor run "run_number"
    require (is_known_status (get successor (codes "status")))
        "Replacement must be a newer automatic run of the default-branch release workflow"
    ok successor

  -- the result of a superseded candidate; the text of a positive ID is that of its number
  unfoldable pub superseded_result : Text → Text → Fields → Result Fields
  superseded_result source head successor = do
    id ← positive (get successor (codes "id")) "Invalid successor run ID"
    ok (
        field (codes "status") (str (codes "superseded")) (
          field (codes "source_sha") (str source) (
            field (codes "superseded_by") (str head) (
              field (codes "successor_run_id") (str (show id)) (
                field (codes "successor_run_url")
                  (str
                    (codes "https://github.com/" ++ (repo ++ (codes "/actions/runs/" ++ show id))))
                  end)))))

  -- from the head of the default branch on
  unfoldable pub against_successor :
      Answers → Fields → Fields → Text → Text → Json → Text → Result (Option Fields)
  against_successor answers info run branch source ref head =
      if head =t source then ok none else (do
        successor ← proven_successor answers info run branch source head
        ref_again ← answers.ref_again branch
        require (py_eq ref_again ref)
            "Default branch changed while verifying replacement; retry at current HEAD"
        result ← superseded_result source head successor
        ok (some result))

  unfoldable pub check_superseded : Answers → Fields → Fields → Result (Option Fields)
  check_superseded answers info run = do
    branch ← text_of (get info (codes "default_branch"))
    branch_now ← repository_info lower repo answers.info
    require (branch_now =t branch)
        "Default branch changed during this run; dispatch a fresh release"
    ref ← answers.ref branch
    head ← head_of branch ref
    source ← text_of (get run (codes "head_sha"))
    against_successor answers info run branch source ref head

  -- `superseded_candidate`
  unfoldable pub superseded_candidate : Answers → Fields → Fields → Text → Result (Option Fields)
  superseded_candidate answers info run channel = do
    event ← text_of (get run (codes "event"))
    (if is_automatic event channel then check_superseded answers info run else ok none)

-- The answer for a tag: its JSON, or a GitHubError with its `not_found`.
pub data TagAnswer : Type 0 where
  found : Json → TagAnswer
  failed : Bool → TagAnswer

abbrev pub is_tag_type : Option Json → Bool
is_tag_type (some (str s)) = one_of (codes "commit" ∷ codes "tag" ∷ []) s
is_tag_type _ = false

abbrev pub is_tag_object : Option Json → Bool
is_tag_object (some (obj target)) =
    is_tag_type (get target (codes "type")) && text_with is_sha (get target (codes "sha"))
is_tag_object _ = false

abbrev pub version_required : Text → Fields
version_required base = field (codes "status") (str (codes "version-required")) (
    field (codes "channel") (str (codes "beta")) (
      field (codes "version") (str base) (
        field (codes "build") (str (codes "false")) (
          field (codes "plan_artifact") (str []) (
            field (codes "reason")
              (str (
                codes "Stable tag v"
                ++ (base
                    ++ codes
                        " already exists; prepare and merge the next committed base version before creating another beta.")))
              end)))))

abbrev pub of_tag : Text → TagAnswer → Result (Option Fields)
of_tag base (failed true) = ok none
of_tag base (failed false) = err "GitHubError"
of_tag base (found value) = do
  ref ← policy_fields (some value) "Invalid stable tag response during automatic beta preparation"
  require
      (text_is (get ref (codes "ref")) (codes "refs/tags/v" ++ base)
        && is_tag_object (get ref (codes "object")))
      "Invalid stable tag response during automatic beta preparation"
  ok (some (version_required base))

-- `closed_push_cycle`
unfoldable pub closed_push_cycle : TagAnswer → Text → Text → Result (Option Fields)
closed_push_cycle answer base kind = if not (kind =t codes "push") then ok none else (do
  require (is_base base) "Version must be strict X.Y.Z without leading zeros"
  of_tag base answer)
