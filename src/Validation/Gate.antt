-- ===== src/Validation/Gate.antt =====
-- `check_results` of scripts/release_validation.py: the jobs of the gate against the expected results.
pub mod Expected
pub mod Lookup
pub mod Complete
use inverter_gateway.Prelude.{
  Bool, true, false, not, Option, none, some, List, [], ◌∷◌, ◌&&◌, if◌then◌else◌, Text, codes, ◌=t◌,
  all,
}
use inverter_gateway.Prelude.Result.{Result, ok, err, require, ◌>>=◌, ◌>>◌}
use inverter_gateway.Json.{Json, Fields, str, obj, end, field, get, has, exactly}
use inverter_gateway.Validation.Policy.{expected_results}

-- `expected[name]`
unfoldable pub lookup : List (Text × Text) → Text → Option Text
lookup [] name = none
lookup ((key, value) ∷ entries) name = if key =t name then some value else lookup entries name

abbrev pub names_of : List (Text × Text) → List Text
names_of [] = []
names_of ((name, value) ∷ entries) = name ∷ names_of entries

abbrev pub is_text : Option Json → Option Text → Bool
is_text (some (str s)) (some t) = s =t t
is_text _ _ = false

abbrev pub job_result : Json → Option Json
job_result (obj job) = get job (codes "result")
job_result _ = none

abbrev pub outputs_of : Option Json → Option Json
outputs_of (some (obj job)) = get job (codes "outputs")
outputs_of _ = none

abbrev pub run_of : Option Json → Option Json
run_of (some (obj outputs)) = get outputs (codes "run")
run_of _ = none

-- no job that failed
unfoldable pub all_passed : List (Text × Text) → Fields → Bool
all_passed expected end = true
all_passed expected (field name job jobs) =
    is_text (job_result job) (lookup expected name) && all_passed expected jobs

-- `check_results`
unfoldable pub check_results : Fields → Text → Fields → Result (Unit {0})
check_results policy channel results = do
  expected ← expected_results policy channel
  require (exactly (names_of expected) results) "Release validation job inventory differs"
  require (is_text (run_of (outputs_of (get results (codes "scope")))) (some (codes "true")))
      "Release validation scope must run real checks"
  require (all_passed expected results) "Release validation did not pass"
  ok tt
