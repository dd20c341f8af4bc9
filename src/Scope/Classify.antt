-- ===== src/Scope/Classify.antt =====
-- `event_revisions` and `classify` of scripts/change_scope.py. What git answers is an interface: an
-- answer is its output, or an error of one of the kinds that `classify` catches.
use inverter_gateway.Prelude.{
  Bool, true, false, not, Option, List, [], ◌∷◌, ◌++◌, ◌&&◌, ◌||◌, if◌then◌else◌, Text, codes,
  String, ◌=t◌, all, is_empty,
}
use inverter_gateway.Prelude.Result.{Result, ok, err, require, ◌>>=◌, ◌>>◌}
use inverter_gateway.Json.{Json, str, obj, get}
use inverter_gateway.Plan.Patterns.{is_sha}
use inverter_gateway.Plan.Declared.{present}
use inverter_gateway.Scope.Paths.{literal_path, document_name}
use inverter_gateway.Scope.Diff.{Decision, full, is_space, classify_diff}

-- `j[key]`: a KeyError, or a TypeError on what is no object
unfoldable pub item : Json → String → Result Json
item (obj fields) key = present (get fields (codes key)) "KeyError"
item _ key = err "TypeError"

abbrev pub zeros : Text
zeros = codes "0000000000000000000000000000000000000000"

unfoldable pub revision_value : Json → Result Text
revision_value (str s) = do
  require (is_sha s && not (s =t zeros)) "Expected nonzero full commit SHA"
  ok s
revision_value _ = err "Expected nonzero full commit SHA"

pub record Revisions : Type 0 where
  pub base : Text
  pub head : Text
  pub separator : Text

abbrev pub is_object : Json → Bool
is_object (obj fields) = true
is_object _ = false

-- `event_revisions`
unfoldable pub event_revisions : Text → Json → Result Revisions
event_revisions event_name event = do
  require (is_object event) "Invalid event object"
  (base_json, head_json, separator) ←
      if event_name =t codes "pull_request"
      then (do
        pull ← item event "pull_request"
        base ← item pull "base"
        base_sha ← item base "sha"
        head ← item pull "head"
        head_sha ← item head "sha"
        ok (base_sha, head_sha, codes "..."))
      else if event_name =t codes "merge_group"
      then (do
        group ← item event "merge_group"
        base_sha ← item group "base_sha"
        head_sha ← item group "head_sha"
        ok (base_sha, head_sha, codes ".."))
      else (do
        base_sha ← item event "before"
        head_sha ← item event "after"
        ok (base_sha, head_sha, codes ".."))
  base ← revision_value base_json
  head ← revision_value head_json
  ok (record { base = base; head = head; separator = separator })

-- `bytes.strip()`
unfoldable pub trim_end : Text → Text
trim_end [] = []
trim_end (c ∷ s) = let rest = trim_end s in if is_empty rest && is_space c then [] else c ∷ rest

unfoldable pub trim_start : Text → Text
trim_start [] = []
trim_start (c ∷ s) = if is_space c then trim_start s else c ∷ s

unfoldable pub strip : Text → Text
strip s = trim_start (trim_end s)

-- The three reads of `git`.
pub record Git : Type 0 where
  pub shallow : Result Text
  pub commit_type : Text → Result Text
  pub diff : Text → Result Text

pub record Scope : Type 0 where
  pub event_name : Text
  pub event : Json
  pub documentation_paths : List Text
  pub required_paths : List Text
  pub force : Bool

abbrev pub is_supported : Text → Bool
is_supported name =
    name =t codes "pull_request" || name =t codes "merge_group" || name =t codes "push"

-- `if not condition: return decision`
abbrev pub provided : Bool → Decision → Result Decision → Result Decision
provided condition early rest = if condition then rest else ok early

module _ (lower : Text → Text) (utf8 : Text → Option Text) (git : Git) where
  -- the body of the second `try`
  unfoldable pub classify_range : Revisions → Scope → Result Decision
  classify_range r s = do
    history ← git.shallow
    provided (strip history =t codes "false") (full "incomplete-history") (do
      base_type ← git.commit_type r.base
      provided (strip base_type =t codes "commit") (full "invalid-revisions") (do
        head_type ← git.commit_type r.head
        provided (strip head_type =t codes "commit") (full "invalid-revisions") (do
          raw ← git.diff (r.base ++ r.separator ++ r.head)
          classify_diff lower utf8 raw s.documentation_paths s.required_paths)))

  abbrev pub caught : Result Decision → Decision
  caught (err e) = full "git-error"
  caught (ok d) = d

  abbrev pub classify_revisions : Result Revisions → Scope → Decision
  classify_revisions (err e) s = full "invalid-revisions"
  classify_revisions (ok r) s = caught (classify_range r s)

  -- `classify`
  unfoldable pub classify : Scope → Decision
  classify s =
      if s.force
      then full "forced"
      else if not (is_supported s.event_name)
      then full "unsupported-event"
      else if not (all (document_name lower) s.documentation_paths)
      then full "invalid-documentation-paths"
      else if not (all literal_path s.required_paths)
      then full "invalid-required-paths"
      else classify_revisions (event_revisions s.event_name s.event) s
