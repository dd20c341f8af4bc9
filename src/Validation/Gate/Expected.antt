-- ===== src/Validation/Gate/Expected.antt =====
-- The job results that `check_results` of scripts/release_validation.py compares with the expected ones.
use inverter_gateway.Prelude.{
  true, false, Option, none, some, List, [], ◌∷◌, ◌≡◌, refl, sym, ap, subst, ◌∙◌, Text, codes, ◌=t◌,
  =t→eq, all, Bool-cases, if_true, if_false, some_injective, inl, inr, &&-true,
}
use inverter_gateway.Json.{Json, Fields, str, obj, end, field, get, has, only, exactly}
use inverter_gateway.Validation.Gate.{lookup, names_of, is_text, job_result, all_passed}

-- `results[name]["result"] == value`
pub record HasResult (results : Fields) (name value : Text) : Type 0 where
  pub job : Fields
  pub present_job : get results name ≡ some (obj job)
  pub reported : get job (codes "result") ≡ some (str value)

-- A job that is expected is there.
has-expected :
    (expected : List (Text × Text)) (results : Fields) (name value : Text)
    → all (has results) (names_of expected) ≡ true
    → lookup expected name ≡ some value
    → has results name ≡ true
unfolding lookup
has-expected [] results name value h found = absurd (cc)
has-expected ((k, v) ∷ expected) results name value h found =
    let (first, rest) = &&-true (has results k) (all (has results) (names_of expected)) h in
    elim (Bool-cases (k =t name)) [
      | inl same ↦ subst (λ x. has results x ≡ true) (=t→eq k name same) first
      | inr other ↦
          has-expected expected results name value rest
            (sym (if_false (k =t name) _ _ other) ∙ found)
    ]

-- A job that is there has the expected result.
passed-result :
    (expected : List (Text × Text)) (results : Fields) (name : Text) (job : Json)
    → all_passed expected results ≡ true
    → get results name ≡ some job
    → is_text (job_result job) (lookup expected name) ≡ true
unfolding all_passed get
passed-result expected end name job h found = absurd (cc)
passed-result expected (field k j results) name job h found =
    let (first, rest) = &&-true _ (all_passed expected results) h in
    elim (Bool-cases (k =t name)) [
      | inl same ↦
          let here : j ≡ job = some_injective (sym (if_true (k =t name) _ _ same) ∙ found) in
          subst (λ x. is_text (job_result x) (lookup expected name) ≡ true) here
            (subst (λ x. is_text (job_result j) (lookup expected x) ≡ true) (=t→eq k name same)
              first)
      | inr other ↦
          passed-result expected results name job rest
            (sym (if_false (k =t name) _ _ other) ∙ found)
    ]

pub is_text-eq :
    (o : Option Json) (value : Text) → is_text o (some value) ≡ true → o ≡ some (str value)
is_text-eq (some (str s)) value h = ap (λ x. some (str x)) (=t→eq s value h)
is_text-eq none value h = absurd (cc)
is_text-eq (some _) value h = absurd (cc)

reported-result :
    (results : Fields) (name value : Text) (job : Json)
    → get results name ≡ some job
    → job_result job ≡ some (str value)
    → HasResult results name value
reported-result results name value (obj job) found h = record {
  job = job;
  present_job = found;
  reported = h;
}
reported-result results name value _ found h = absurd (cc)

has-get :
    (results : Fields) (name : Text)
    → has results name ≡ true
    → (j : Json) × (get results name ≡ some j)
has-get results name h = go (get results name) refl h
  where
    go :
        (o : Option Json)
        → get results name ≡ o
        → elim o [ none ↦ false | some v ↦ true ] ≡ true
        → (j : Json) × (get results name ≡ some j)
    go none same h' = absurd (cc)
    go (some j) same h' = (j, same)

pub expected-result :
    (expected : List (Text × Text)) (results : Fields) (name value : Text)
    → exactly (names_of expected) results ≡ true
    → all_passed expected results ≡ true
    → lookup expected name ≡ some value
    → HasResult results name value
unfolding exactly
expected-result expected results name value inventory passed found =
    let (_, present) =
      &&-true (only (names_of expected) results) (all (has results) (names_of expected))
        inventory in
    let (job, there) =
      has-get results name (has-expected expected results name value present found) in
    reported-result results name value job there (
      is_text-eq (job_result job) value (
        subst (λ o. is_text (job_result job) o ≡ true) found
          (passed-result expected results name job passed there)))
