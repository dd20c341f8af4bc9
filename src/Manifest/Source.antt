-- ===== src/Manifest/Source.antt =====
-- `source_policy_snapshot` and `validate_validation_run` of scripts/release_control.py, on what GitHub answers. Base64 and
-- SHA-1 are the standard library's: `decode` gives the bytes of a text, or an exception, and `sha1` the digest of bytes.
use inverter_gateway.Prelude.{
  Bool, true, false, Option, none, some, List, ◌∷◌, ◌++◌, ◌&&◌, ◌||◌, if◌then◌else◌, Text, codes,
  leb, length, show,
}
use inverter_gateway.Prelude.Result.{Result, ok, err, require, ◌>>=◌, ◌>>◌}
use inverter_gateway.Json.{Json, Fields, int, str, end, field, get, has}
use inverter_gateway.Json.Texts.{text_is, number_is}
use inverter_gateway.Plan.Patterns.{is_sha}
use inverter_gateway.Validation.Jobs.{check_run_jobs}
use inverter_gateway.Runs.Provenance.{positive}
use inverter_gateway.Manifest.Python.{Python}
use inverter_gateway.Manifest.Fuzz.{check_fuzz_jobs}
use inverter_gateway.Manifest.Policy.{
  policy_path, policy_fields, require_release_policy, validation_profile,
}

abbrev pub is_some : Option Json → Bool
is_some none = false
is_some (some value) = true

abbrev pub text_in : Option Json → Result Text
text_in (some (str s)) = ok s
text_in _ = err "TypeError"

abbrev pub encoded_content : Option Json → Result Text
encoded_content (some (str encoded)) = do
  require (leb (length encoded) 400_000) "Invalid or oversized source policy content"
  ok encoded
encoded_content _ = err "Invalid or oversized source policy content"

module _ (py : Python) (decode : Text → Result Text) (sha1 : Text → Text)
    (digest : Text → Text) where
  -- the Git blob identity of some bytes; `zero_byte` separates the header
  abbrev pub blob_sha : Text → Text
  blob_sha raw = sha1 (codes "blob " ++ (show (length raw) ++ (0 ∷ raw)))

  -- `source_policy_snapshot`, where `decode` drops white space first
  unfoldable pub source_policy_snapshot : Text → Text → Result Json → Result Fields
  source_policy_snapshot repo sha answer = do
    require (is_sha sha) "Invalid source policy commit SHA"
    value ← answer
    response ← policy_fields (some value) "Source commit must contain a regular release policy file"
    require
        (text_is (get response (codes "type")) (codes "file")
          && text_is (get response (codes "path")) policy_path
          && text_is (get response (codes "encoding")) (codes "base64"))
        "Source commit must contain a regular release policy file"
    encoded ← encoded_content (get response (codes "content"))
    raw ← decode encoded
    require (leb (length raw) 250_000 && number_is (get response (codes "size")) (length raw))
        "Source policy size mismatch"
    require (text_is (get response (codes "sha")) (blob_sha raw))
        "Source policy Git blob identity mismatch"
    policy ← py.loads raw
    require_release_policy py (some policy) repo false
    ok (
        field (codes "schema") (int 1) (
          field (codes "path") (str policy_path) (
            field (codes "git_blob_sha") (str (blob_sha raw))
              (field (codes "sha256") (str (digest raw)) (field (codes "data") policy end)))))

abbrev pub profiled_jobs : Bool → List Fields → Text → Text → Result (Unit {0})
profiled_jobs false jobs channel sha = ok tt
profiled_jobs true jobs channel sha = check_run_jobs jobs channel sha

abbrev pub fuzzed_jobs : Bool → List Fields → Text → Text → Result (Unit {0})
fuzzed_jobs false jobs channel sha = ok tt
fuzzed_jobs true jobs channel sha = check_fuzz_jobs jobs channel sha

-- the jobs of a run, where the policy asks for a profile or for fuzzing
unfoldable pub check_validation_jobs :
    Fields → Bool → Bool → Text → Result (List Fields) → Result (Unit {0})
check_validation_jobs run has_profile has_fuzzing channel listed = do
  id ← positive (get run (codes "id")) "Invalid run ID"
  attempt ← positive (get run (codes "run_attempt")) "Invalid run attempt"
  jobs ← listed
  sha ← text_in (get run (codes "head_sha"))
  profiled_jobs has_profile jobs channel sha
  fuzzed_jobs has_fuzzing jobs channel sha

-- `validate_validation_run`
unfoldable pub validate_validation_run :
    Fields → Fields → Text → Result (List Fields) → Result (Unit {0})
validate_validation_run run policy channel listed = do
  profile ← validation_profile policy channel
  (if is_some profile || has policy (codes "fuzzing")
      then check_validation_jobs run (is_some profile) (has policy (codes "fuzzing")) channel listed
      else ok tt)
