-- ===== src/Publish/Preflight.antt =====
-- `repository_info`, `workflow_tree` and `check_workflow_publication` of scripts/release_control.py, on what GitHub answers
-- to their reads.
use inverter_gateway.Prelude.{
  Bool, not, Option, some, List, [], ◌∷◌, ◌++◌, ◌&&◌, ◌||◌, if◌then◌else◌, Text, codes, ◌=t◌, ltb,
  keep, length,
}
use inverter_gateway.Prelude.Result.{Result, ok, err, require, ◌>>=◌, ◌>>◌}
use inverter_gateway.Json.{Json, Fields, str, arr, obj, get, to_list}
use inverter_gateway.Json.Equality.{py_eq}
use inverter_gateway.Json.Texts.{text_is}
use inverter_gateway.Plan.Patterns.{is_sha}
use inverter_gateway.Runs.Provenance.{name_text}
use inverter_gateway.Manifest.Policy.{policy_fields, text_with}

abbrev pub text_of : Option Json → Result Text
text_of (some (str s)) = ok s
text_of _ = err "TypeError"

-- `repository_info`, and the default branch of what it returns
unfoldable pub repository_info : (Text → Text) → Text → Result Json → Result Text
repository_info lower repo answer = do
  value ← answer
  info ← policy_fields (some value) "Invalid repository response"
  name ← name_text (get info (codes "full_name"))
  require (lower name =t lower repo) "Repository identity mismatch"
  branch ← text_of (get info (codes "default_branch"))
  require (not (branch =t [])) "Repository has no default branch"
  ok branch

abbrev pub is_workflow_entry : Fields → Bool
is_workflow_entry entry =
    text_is (get entry (codes "name")) (codes "workflows")
    || text_is (get entry (codes "path")) (codes ".github/workflows")

abbrev pub entry_list : List Json → Result (List Fields)
entry_list [] = ok []
entry_list (obj entry ∷ items) = do rest ← entry_list items; ok (entry ∷ rest)
entry_list (_ ∷ items) = err "Cannot verify the complete source .github directory"

abbrev pub directory_entries : Json → Result (List Fields)
directory_entries (arr items) = do
  require (ltb (length (to_list items)) 1000) "Cannot verify the complete source .github directory"
  entry_list (to_list items)
directory_entries _ = err "Cannot verify the complete source .github directory"

abbrev pub tree_of : List Fields → Result Text
tree_of (entry ∷ []) = do
  require
      (text_is (get entry (codes "name")) (codes "workflows")
        && text_is (get entry (codes "path")) (codes ".github/workflows")
        && text_is (get entry (codes "type")) (codes "dir")
        && text_with is_sha (get entry (codes "sha")))
      "Cannot verify a regular source .github/workflows directory"
  text_of (get entry (codes "sha"))
tree_of _ = err "Cannot verify a regular source .github/workflows directory"

-- `workflow_tree`
unfoldable pub workflow_tree : Result Json → Result Text
workflow_tree answer = do
  value ← answer
  entries ← directory_entries value
  tree_of (keep is_workflow_entry entries)

abbrev pub commit_of : Option Json → Result Text
commit_of (some (obj target)) = do
  require
      (text_is (get target (codes "type")) (codes "commit")
        && text_with is_sha (get target (codes "sha")))
      "Cannot verify default HEAD before release publication"
  text_of (get target (codes "sha"))
commit_of _ = err "Cannot verify default HEAD before release publication"

-- the commit of the ref of a branch
unfoldable pub head_of : Text → Json → Result Text
head_of branch value = do
  ref ← policy_fields (some value) "Cannot verify default HEAD before release publication"
  require (text_is (get ref (codes "ref")) (codes "refs/heads/" ++ branch))
      "Cannot verify default HEAD before release publication"
  commit_of (get ref (codes "object"))

-- What GitHub answers, in the order of the reads.
pub record Reads : Type 0 where
  pub scope_verified : Bool
  pub info : Result Json
  pub ref : Result Json
  pub source_tree : Result Json
  pub head_tree : Result Json
  pub info_again : Result Json
  pub ref_again : Result Json

module _ (lower : Text → Text) (repo : Text) where
  -- the comparison with a default HEAD that is not the source
  unfoldable pub same_workflows : Reads → Text → Json → Result (Unit {0})
  same_workflows reads branch ref = do
    source ← workflow_tree reads.source_tree
    head ← workflow_tree reads.head_tree
    require (source =t head) "Release source workflows differ from current default HEAD"
    branch_again ← repository_info lower repo reads.info_again
    require (branch_again =t branch) "Default branch changed during publication preflight"
    ref_again ← reads.ref_again
    require (py_eq ref_again ref) "Default branch changed during publication preflight"

  unfoldable pub against_head : Reads → Text → Result (Unit {0})
  against_head reads sha = do
    branch ← repository_info lower repo reads.info
    ref ← reads.ref
    head ← head_of branch ref
    (if sha =t head then ok tt else same_workflows reads branch ref)

  -- `check_workflow_publication`
  unfoldable pub check_workflow_publication : Reads → Text → Result (Unit {0})
  check_workflow_publication reads sha = do
    require (is_sha sha) "Invalid release source SHA"
    (if reads.scope_verified then ok tt else against_head reads sha)
