-- ===== src/Scope/Safety.antt =====
-- When `classify` of scripts/change_scope.py skips heavy CI.
use inverter_gateway.Prelude.{
  not-false, Bool, true, false, not, Option, ◌++◌, ◌≡◌, refl, if◌then◌else◌, Text, codes, ◌=t◌, all,
}
use inverter_gateway.Prelude.Result.{Result, ok, err, bind_ok}
use inverter_gateway.Scope.Paths.{literal_path, document_name}
use inverter_gateway.Scope.Diff.{Decision}
use inverter_gateway.Scope.Documents.{IsDocumentationDiff, classify_diff-skip}
use inverter_gateway.Scope.Classify.{
  Revisions, event_revisions, Git, Scope, is_supported, strip, provided, classify_range, caught,
  classify_revisions, classify,
}

module _ (lower : Text → Text) (utf8 : Text → Option Text) (git : Git) where
  -- Between two commits of a whole history, git names documentation files alone.
  pub record IsDocumentationRange (r : Revisions) (s : Scope) : Type 0 where
    pub history : Text
    pub base_type : Text
    pub head_type : Text
    pub raw : Text
    pub reads_history : git.shallow ≡ ok history
    pub complete : strip history =t codes "false" ≡ true
    pub reads_base : git.commit_type r.base ≡ ok base_type
    pub base_commit : strip base_type =t codes "commit" ≡ true
    pub reads_head : git.commit_type r.head ≡ ok head_type
    pub head_commit : strip head_type =t codes "commit" ≡ true
    pub reads_diff : git.diff (r.base ++ r.separator ++ r.head) ≡ ok raw
    pub documents : IsDocumentationDiff lower utf8 s.documentation_paths s.required_paths raw

  -- What has to hold for a change to skip heavy CI.
  pub record IsSkippable (s : Scope) : Type 0 where
    pub revisions : Revisions
    pub unforced : s.force ≡ false
    pub supported : is_supported s.event_name ≡ true
    pub policy : all (document_name lower) s.documentation_paths ≡ true
    pub requirements : all literal_path s.required_paths ≡ true
    pub names : event_revisions s.event_name s.event ≡ ok revisions
    pub range : IsDocumentationRange revisions s

  provided_ok {κ} :
      {P : Type κ} (test : Bool) (early : Decision) (rest : Result Decision) {d : Decision}
      → provided test early rest ≡ ok d
      → d.run ≡ false
      → early.run ≡ true
      → (test ≡ true → rest ≡ ok d → P)
      → P
  provided_ok true early rest h skips runs k = k refl h
  provided_ok false early rest h skips runs k = absurd (cc)

  classify_range-skip :
      (r : Revisions) (s : Scope) (d : Decision)
      → classify_range lower utf8 git r s ≡ ok d
      → d.run ≡ false
      → IsDocumentationRange r s
  unfolding classify_range
  classify_range-skip r s d h skips = bind_ok git.shallow _ h λ history reads_history h1.
      provided_ok _ _ _ h1 skips refl λ complete h2.
        bind_ok (git.commit_type r.base) _ h2 λ base_type reads_base h3.
          provided_ok _ _ _ h3 skips refl λ base_commit h4.
            bind_ok (git.commit_type r.head) _ h4 λ head_type reads_head h5.
              provided_ok _ _ _ h5 skips refl λ head_commit h6.
                bind_ok (git.diff (r.base ++ r.separator ++ r.head)) _ h6 λ raw reads_diff h7.
                  record {
                    history = history;
                    base_type = base_type;
                    head_type = head_type;
                    raw = raw;
                    reads_history = reads_history;
                    complete = complete;
                    reads_base = reads_base;
                    base_commit = base_commit;
                    reads_head = reads_head;
                    head_commit = head_commit;
                    reads_diff = reads_diff;
                    documents =
                        classify_diff-skip lower utf8 s.documentation_paths s.required_paths raw d
                          h7 skips;
                  }

  caught-skip :
      (m : Result Decision)
      → (caught lower utf8 git m).run ≡ false
      → (d : Decision) × (m ≡ ok d) × (d.run ≡ false)
  caught-skip (err e) h = absurd (cc)
  caught-skip (ok d) h = (d, refl, h)

  classify_revisions-skip :
      (m : Result Revisions) (s : Scope)
      → (classify_revisions lower utf8 git m s).run ≡ false
      → (r : Revisions) × (m ≡ ok r) × IsDocumentationRange r s
  classify_revisions-skip (err e) s h = absurd (cc)
  classify_revisions-skip (ok r) s h =
      let (d, same, skips) = caught-skip (classify_range lower utf8 git r s) h in
      (r, refl, classify_range-skip r s d same skips)

  -- `if condition: return decision(True, ...)`, when the answer is to skip
  unless_stopped {κ} :
      {P : Type κ} (test : Bool) (stop rest : Decision)
      → (if test then stop else rest).run ≡ false
      → stop.run ≡ true
      → (test ≡ false → rest.run ≡ false → P)
      → P
  unless_stopped true stop rest h runs k = absurd (cc)
  unless_stopped false stop rest h runs k = k refl h

  -- A change that `classify` exempts from heavy CI is not forced, is of a supported event with valid policy
  -- paths, and names two commits of a whole history whose diff is bounded, complete, and made of
  -- records of ordinary documentation files alone, none of them required.
  pub classify-skip : (s : Scope) → (classify lower utf8 git s).run ≡ false → IsSkippable s
  unfolding classify
  classify-skip s h = unless_stopped s.force _ _ h refl λ unforced h1.
      unless_stopped (not (is_supported s.event_name)) _ _ h1 refl λ supported h2.
        unless_stopped (not (all (document_name lower) s.documentation_paths)) _ _ h2 refl
          λ policy h3.
            unless_stopped (not (all literal_path s.required_paths)) _ _ h3 refl λ requirements h4.
              let (r, names, range) =
                classify_revisions-skip (event_revisions s.event_name s.event) s h4 in
              record {
                revisions = r;
                unforced = unforced;
                supported = not-false _ supported;
                policy = not-false _ policy;
                requirements = not-false _ requirements;
                names = names;
                range = range;
              }
