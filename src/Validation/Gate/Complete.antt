-- ===== src/Validation/Gate/Complete.antt =====
-- What the results that `check_results` accepts establish.
use inverter_gateway.Prelude.{
  ℕ, zero, suc, ◌<◌, arith, Option, none, some, List, ◌++◌, ◌≡◌, sym, ap, subst, ◌∙◌, Text, codes,
  show, length,
}
use inverter_gateway.Prelude.Result.{ok, bind_ok, guard_ok, ok-injective}
use inverter_gateway.Json.{Json, Fields, str, get, exactly}
use inverter_gateway.Plan.Declaration.{one_of}
use inverter_gateway.Validation.Policy.{
  channel_workflows, channels, numbered, coverage_results, contract_results, list_items,
  dict_or_empty, list_or_empty, opt_in, regular_result, beta_result, success, expected_results,
}
use inverter_gateway.Validation.Gate.{
  lookup, names_of, is_text, run_of, outputs_of, all_passed, check_results,
}
use inverter_gateway.Validation.Gate.Lookup.{
  lookup-append, lookup-append-none, lookup-index, lookup-numbered-none, contracts-check,
  contracts-beta_check, contracts-scope, check-beta_check,
}
use inverter_gateway.Validation.Gate.Expected.{HasResult, is_text-eq, expected-result}

abbrev inventory : Text → List Json → List Text → List (Text × Text) → List (Text × Text)
inventory channel workflows names covered =
    contract_results
    ++ numbered (codes "check-") 0 (length workflows) (regular_result channel)
    ++ numbered (codes "beta-check-") 0 (length names) (beta_result channel)
    ++ covered

opt_in-eq :
    (beta : Option (List Text)) (names : List Text) → opt_in beta ≡ ok names → beta ≡ some names
opt_in-eq none names h = absurd (cc)
opt_in-eq (some given) names h = ap some (ok-injective _ _ h)

-- The parts of an inventory: it comes from the policy's beta opt-in and its regular workflows.
record IsInventory (policy : Fields) (channel : Text) (expected : List (Text × Text)) : Type 0 where
  names : List Text
  workflows : List Json
  opted : channel_workflows policy ≡ ok (some names)
  listed : list_items (get policy (codes "validation_workflows")) ≡ ok workflows
  covered : List (Text × Text)
  parts : expected ≡ inventory channel workflows names covered

expected_results-IsInventory :
    (policy : Fields) (channel : Text) (expected : List (Text × Text))
    → expected_results policy channel ≡ ok expected
    → IsInventory policy channel expected
unfolding expected_results
expected_results-IsInventory policy channel expected h =
    bind_ok (channel_workflows policy) _ h λ beta hb h1. bind_ok (opt_in beta) _ h1 λ given hg h2.
      guard_ok (one_of channels channel) _ _ h2 λ known h3.
        bind_ok (list_items (get policy (codes "validation_workflows"))) _ h3 λ found hf h4.
          bind_ok (dict_or_empty (get policy (codes "coverage"))) _ h4 λ coverage hc h5.
            bind_ok (list_or_empty (get coverage (codes "reports"))) _ h5 λ reports hr h6.
              bind_ok (coverage_results reports (regular_result channel)) _ h6 λ covered hv h7.
                record {
                  names = given;
                  workflows = found;
                  opted = hb ∙ ap ok (opt_in-eq beta given hg);
                  listed = hf;
                  covered = covered;
                  parts = sym (ok-injective _ _ h7);
                }

lookup-check :
    (channel : Text) (workflows : List Json) (names : List Text) (covered : List (Text × Text))
    (i : ℕ)
    → i < length workflows
    → lookup (inventory channel workflows names covered) (codes "check-" ++ show i)
      ≡ some (regular_result channel)
lookup-check channel workflows names covered i h = lookup-append _ covered _ _ (
    lookup-append _ (numbered (codes "beta-check-") 0 (length names) (beta_result channel)) _ _ (
      lookup-append-none contract_results _ (codes "check-" ++ show i) (contracts-check (show i))
      ∙ lookup-index (codes "check-") (regular_result channel) (length workflows) i h))

lookup-beta_check :
    (channel : Text) (workflows : List Json) (names : List Text) (covered : List (Text × Text))
    (i : ℕ)
    → i < length names
    → lookup (inventory channel workflows names covered) (codes "beta-check-" ++ show i)
      ≡ some (beta_result channel)
lookup-beta_check channel workflows names covered i h =
    let name = codes "beta-check-" ++ show i in
    let regular = numbered (codes "check-") 0 (length workflows) (regular_result channel) in
    let before : lookup (contract_results ++ regular) name ≡ none =
      lookup-append-none contract_results regular name (contracts-beta_check (show i))
      ∙ lookup-numbered-none (codes "check-") (regular_result channel) name 0 (length workflows)
          (check-beta_check (show i)) in
    lookup-append _ covered _ _ (
      lookup-append-none (contract_results ++ regular) _ name before
      ∙ lookup-index (codes "beta-check-") (beta_result channel) (length names) i h)

lookup-scope :
    (channel : Text) (workflows : List Json) (names : List Text) (covered : List (Text × Text))
    → lookup (inventory channel workflows names covered) (codes "scope") ≡ some success
lookup-scope channel workflows names covered = lookup-append _ covered _ _ (
    lookup-append _ (numbered (codes "beta-check-") 0 (length names) (beta_result channel)) _ _
      (lookup-append contract_results _ _ _ contracts-scope))

-- The jobs `<prefix>0` up to `<prefix><n - 1>` each have the result.
abbrev pub HasEach : Fields → Text → Text → ℕ → Type 0
HasEach results prefix value zero = Unit
HasEach results prefix value (suc n) =
    HasEach results prefix value n × HasResult results (prefix ++ show n) value

each-HasEach :
    (results : Fields) (prefix value : Text) (n : ℕ)
    → ((i : ℕ) → i < n → HasResult results (prefix ++ show i) value)
    → HasEach results prefix value n
each-HasEach results prefix value zero found = tt
each-HasEach results prefix value (suc n) found =
    (each-HasEach results prefix value n (λ i h. found i (omega (arith, h))), found n (omega arith))

-- What a gate that passed has seen: the policy lists its beta workflows and its regular ones, the
-- scope job succeeded and decided on real checks, and each numbered job has its channel's result.
pub record IsComplete (policy : Fields) (channel : Text) (results : Fields) : Type 0 where
  pub names : List Text
  pub workflows : List Json
  pub opted : channel_workflows policy ≡ ok (some names)
  pub listed : list_items (get policy (codes "validation_workflows")) ≡ ok workflows
  pub scope : HasResult results (codes "scope") success
  pub real : run_of (outputs_of (get results (codes "scope"))) ≡ some (str (codes "true"))
  pub regular : HasEach results (codes "check-") (regular_result channel) (length workflows)
  pub beta : HasEach results (codes "beta-check-") (beta_result channel) (length names)

-- A release gate that passes has read the beta workflows and the regular workflows that the
-- policy lists; its scope job succeeded and reported that real checks run; every regular check
-- has its channel's result (success, or skipped on beta), and so has every beta check (success on
-- beta, skipped on another channel).
pub check_results-IsComplete :
    (policy : Fields) (channel : Text) (results : Fields)
    → check_results policy channel results ≡ ok tt
    → IsComplete policy channel results
unfolding check_results
check_results-IsComplete policy channel results h =
    bind_ok (expected_results policy channel) _ h λ expected known h1.
      guard_ok (exactly (names_of expected) results) _ _ h1 λ named h2.
        guard_ok (is_text (run_of (outputs_of (get results (codes "scope")))) (some (codes "true")))
          _ _ h2
          λ real h3. guard_ok (all_passed expected results) _ _ h3 λ passed h4.
            let made = expected_results-IsInventory policy channel expected known in
            let found : (name value : Text)
                → lookup (inventory channel made.workflows made.names made.covered) name
                  ≡ some value
                → HasResult results name value =
              λ name value looked.
                expected-result expected results name value named passed
                  (subst (λ e. lookup e name ≡ some value) (sym made.parts) looked) in
            record {
              names = made.names;
              workflows = made.workflows;
              opted = made.opted;
              listed = made.listed;
              scope = found (codes "scope") success (lookup-scope channel _ _ made.covered);
              real = is_text-eq _ (codes "true") real;
              regular = each-HasEach results (codes "check-") (regular_result channel) _ (λ i hi.
                  found (codes "check-" ++ show i) (regular_result channel)
                    (lookup-check channel _ _ made.covered i hi));
              beta = each-HasEach results (codes "beta-check-") (beta_result channel) _ (λ i hi.
                  found (codes "beta-check-" ++ show i) (beta_result channel)
                    (lookup-beta_check channel _ _ made.covered i hi));
            }
