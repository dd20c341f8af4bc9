-- ===== src/Authority/Superseded/Proven.antt =====
-- What `superseded_candidate` of scripts/release_control.py has seen when it skips a candidate.
use inverter_gateway.Prelude.{
  ℕ, ◌<◌, true, false, Option, none, some, ◌&&◌, ◌≡◌, ap, ◌∙◌, subst, Text, codes, ◌=t◌, =t→eq,
  ltb→lt, &&-true, if_cases, some_injective, String,
}
use inverter_gateway.Prelude.Result.{ok, bind_ok, guard_ok, require_ok, ok-injective}
use inverter_gateway.Json.{Json, Fields, nil, cons, null, arr, str, obj, get}
use inverter_gateway.Json.Equality.{py_eq}
use inverter_gateway.Json.Texts.{text_is, text_is-eq}
use inverter_gateway.Runs.Provenance.{positive, validate_run_provenance}
use inverter_gateway.Manifest.Policy.{policy_fields}
use inverter_gateway.Manifest.Policy.Qualified.{IsText}
use inverter_gateway.Publish.Preflight.{text_of, repository_info, head_of}
use inverter_gateway.Authority.Superseded.{
  has_merge_base, is_one_count, one_run, is_automatic, Answers, successor_of, is_known_status,
  check_newer, proven_successor, superseded_result, against_successor, check_superseded,
  superseded_candidate,
}

-- A number of one run that is above that of another.
abbrev pub IsNewer : Fields → Fields → String → Type 0
IsNewer successor run key =
    (later : ℕ) × (earlier : ℕ) × (positive (get successor (codes key)) "Invalid successor"
      ≡ ok later)
    × (positive (get run (codes key)) "Invalid source" ≡ ok earlier)
    × (earlier < later)

-- The one run that GitHub lists for the new HEAD.
abbrev pub IsListed : Answers → Text → Text → Fields → Type 0
IsListed answers branch head successor =
    (replacement : Fields) × (answers.replacement branch head ≡ ok (obj replacement))
    × (is_one_count (get replacement (codes "total_count")) ≡ true)
    × (get replacement (codes "workflow_runs") ≡ some (arr (cons (obj successor) nil)))

-- The listed run is trusted as a run of the new HEAD that a push started, later than the candidate's.
abbrev pub IsSuccessor :
    (Text → Text) → Text → Answers → Fields → Fields → Text → Text → Fields → Type 0
IsSuccessor lower repo answers info run branch head successor =
    IsListed answers branch head successor
    × ((attempt : ℕ) × (positive (get successor (codes "run_attempt")) "Invalid run attempt"
          ≡ ok attempt)
        × (validate_run_provenance lower repo successor info head attempt ≡ ok tt))
    × IsText successor "event" (codes "push")
    × IsNewer successor run "id"
    × IsNewer successor run "run_number"
    × (is_known_status (get successor (codes "status")) ≡ true)

-- The default branch has moved from the source to a HEAD that comes after it.
abbrev pub IsMoved : Answers → Text → Text → Text → Type 0
IsMoved answers branch source head =
    ((ref : Json) × (ref_again : Json) × (answers.ref branch ≡ ok ref)
      × (head_of branch ref ≡ ok head)
      × (answers.ref_again branch ≡ ok ref_again)
      × (py_eq ref_again ref ≡ true))
    × ((head =t source) ≡ false)
    × ((comparison : Fields) × (answers.comparison source head ≡ ok (obj comparison))
        × IsText comparison "status" (codes "ahead")
        × (has_merge_base (get comparison (codes "merge_base_commit")) source ≡ true))

text_of_str : (o : Option Json) (s : Text) → text_of o ≡ ok s → o ≡ some (str s)
text_of_str (some (str t)) s h = ap (λ x. some (str x)) (ok-injective _ _ h)
text_of_str none s h = absurd (cc)
text_of_str (some _) s h = absurd (cc)

policy_fields_value :
    (value : Json) (message : String) (fields : Fields)
    → policy_fields (some value) message ≡ ok fields
    → value ≡ obj fields
policy_fields_value (obj policy) message fields h = ap (λ x. obj x) (ok-injective _ _ h)
policy_fields_value null message fields h = absurd (cc)
policy_fields_value _ message fields h = absurd (cc)

one_run_list :
    (o : Option Json) (run : Fields) → one_run o ≡ ok run → o ≡ some (arr (cons (obj run) nil))
one_run_list (some (arr (cons (obj r) nil))) run h =
    ap (λ x. some (arr (cons (obj x) nil))) (ok-injective _ _ h)
one_run_list none run h = absurd (cc)
one_run_list (some _) run h = absurd (cc)

successor_of-IsListed :
    (answers : Answers) (branch head : Text) (successor : Fields)
    → successor_of (answers.replacement branch head) ≡ ok successor
    → IsListed answers branch head successor
unfolding successor_of
successor_of-IsListed answers branch head successor h =
    bind_ok (answers.replacement branch head) _ h λ value read h1.
      bind_ok (policy_fields (some value) _) _ h1 λ replacement dict h2.
        guard_ok (is_one_count (get replacement (codes "total_count"))) _ _ h2 λ one h3. (
          replacement,
          read ∙ ap (λ v. ok v) (policy_fields_value value _ replacement dict),
          one,
          one_run_list _ successor h3,
        )

check_newer-IsNewer :
    (successor run : Fields) (key : String)
    → check_newer successor run key ≡ ok tt
    → IsNewer successor run key
unfolding check_newer
check_newer-IsNewer successor run key h =
    bind_ok (positive (get successor (codes key)) _) _ h λ later hl h1.
      bind_ok (positive (get run (codes key)) _) _ h1
        λ earlier he h2. (later, earlier, hl, he, ltb→lt earlier later (require_ok _ _ h2))

module _ (lower : Text → Text) (repo : Text) where
  abbrev IsProven : Answers → Fields → Fields → Text → Text → Text → Fields → Type 0
  IsProven answers info run branch source head successor =
      ((comparison : Fields) × (answers.comparison source head ≡ ok (obj comparison))
        × IsText comparison "status" (codes "ahead")
        × (has_merge_base (get comparison (codes "merge_base_commit")) source ≡ true))
      × IsSuccessor lower repo answers info run branch head successor

  proven_successor-IsProven :
      (answers : Answers) (info run : Fields) (branch source head : Text) (successor : Fields)
      → proven_successor lower repo answers info run branch source head ≡ ok successor
      → IsProven answers info run branch source head successor
  unfolding proven_successor
  proven_successor-IsProven answers info run branch source head successor h =
      bind_ok (answers.comparison source head) _ h λ compared read h1.
        bind_ok (policy_fields (some compared) _) _ h1 λ comparison dict h2.
          guard_ok
            (text_is (get comparison (codes "status")) (codes "ahead")
              && has_merge_base (get comparison (codes "merge_base_commit")) source)
            _ _ h2
            λ t h3. bind_ok (successor_of (answers.replacement branch head)) _ h3 λ next listed h4.
              bind_ok (positive (get next (codes "run_attempt")) _) _ h4 λ attempt counted h5.
                bind_ok (validate_run_provenance lower repo next info head attempt) _ h5
                  λ _ trusted h6.
                    guard_ok (text_is (get next (codes "event")) (codes "push")) _ _ h6 λ pushed h7.
                      bind_ok (check_newer next run "id") _ h7 λ _ newer h8.
                        bind_ok (check_newer next run "run_number") _ h8 λ _ later h9.
                          guard_ok (is_known_status (get next (codes "status"))) _ _ h9
                            λ known same.
                              let (ahead, base) =
                                &&-true (text_is (get comparison (codes "status")) (codes "ahead"))
                                  _ t in
                              subst (IsProven answers info run branch source head)
                                (ok-injective _ _ same)
                                (
                                  (
                                    comparison,
                                    read
                                        ∙ ap (λ v. ok v)
                                            (policy_fields_value compared _ comparison dict),
                                    text_is-eq _ _ ahead,
                                    base,
                                  ),
                                  (
                                    successor_of-IsListed answers branch head next listed,
                                    (attempt, counted, trusted),
                                    text_is-eq _ _ pushed,
                                    check_newer-IsNewer next run "id" newer,
                                    check_newer-IsNewer next run "run_number" later,
                                    known,
                                  ),
                                )

  -- The candidate is replaced by a run of a later HEAD.
  abbrev pub IsSuperseded : Answers → Fields → Fields → Fields → Type 0
  IsSuperseded answers info run result =
      (branch : Text) × (source : Text) × (head : Text) × (successor : Fields) × IsText info
        "default_branch" branch
      × (repository_info lower repo answers.info ≡ ok branch)
      × IsText run "head_sha" source
      × IsMoved answers branch source head
      × IsSuccessor lower repo answers info run branch head successor
      × (superseded_result lower repo source head successor ≡ ok result)

  check_superseded-IsSuperseded :
      (answers : Answers) (info run result : Fields)
      → check_superseded lower repo answers info run ≡ ok (some result)
      → IsSuperseded answers info run result
  unfolding check_superseded against_successor
  check_superseded-IsSuperseded answers info run result h =
      bind_ok (text_of (get info (codes "default_branch"))) _ h λ branch named h1.
        bind_ok (repository_info lower repo answers.info) _ h1 λ branch_now asked h2.
          guard_ok (branch_now =t branch) _ _ h2 λ still h3.
            bind_ok (answers.ref branch) _ h3 λ ref read h4.
              bind_ok (head_of branch ref) _ h4 λ head at_head h5.
                bind_ok (text_of (get run (codes "head_sha"))) _ h5 λ source at_source h6.
                  if_cases (head =t source) _ _ h6 (λ _ never. absurd (cc))
                    (λ differs h7.
                      bind_ok (proven_successor lower repo answers info run branch source head) _ h7
                        λ successor proven h8.
                          bind_ok (answers.ref_again branch) _ h8 λ ref_again reread h9.
                            guard_ok (py_eq ref_again ref) _ _ h9 λ unmoved h10.
                              bind_ok (superseded_result lower repo source head successor) _ h10
                                λ made answer same.
                                  let (compared, succeeds) =
                                    proven_successor-IsProven answers info run branch source head
                                      successor proven in
                                  (
                                    branch,
                                    source,
                                    head,
                                    successor,
                                    text_of_str _ _ named,
                                    asked ∙ ap (λ b. ok b) (=t→eq branch_now branch still),
                                    text_of_str _ _ at_source,
                                    (
                                      (ref, ref_again, read, at_head, reread, unmoved),
                                      differs,
                                      compared,
                                    ),
                                    succeeds,
                                    answer
                                        ∙ ap (λ v. ok v) (some_injective (ok-injective _ _ same)),
                                  ))

  -- When superseded_candidate skips a candidate, its run was automatic for the channel; the
  -- default branch was still the one of the run's repository; it had moved from the run's
  -- commit to a HEAD that is ahead of it with this commit as merge base and that did not move
  -- while it was looked at; and the run that the result names replaces it: it is the only push
  -- run that GitHub lists for that branch and HEAD, with a total count of one, and it is a
  -- trusted run of that HEAD with a known status, a greater ID and a greater number.
  pub superseded_candidate-IsSuperseded :
      (answers : Answers) (info run : Fields) (channel : Text) (result : Fields)
      → superseded_candidate lower repo answers info run channel ≡ ok (some result)
      → ((event : Text) × IsText run "event" event × (is_automatic event channel ≡ true))
        × IsSuperseded answers info run result
  unfolding superseded_candidate
  superseded_candidate-IsSuperseded answers info run channel result h =
      bind_ok (text_of (get run (codes "event"))) _ h λ event named h1.
        if_cases (is_automatic event channel) _ _ h1
          (λ automatic h2. (
            (event, text_of_str _ _ named, automatic),
            check_superseded-IsSuperseded answers info run result h2,
          ))
          (λ _ never. absurd (cc))
