-- ===== src/Transport/Retry.antt =====
-- `GitHub.response`, `_completed_read` and `_read_get` of scripts/release_control.py. The commands that callers
-- build are GET requests; their processes' results are the attempts, and the waits between them
-- are not modelled.
use inverter_gateway.Prelude.{
  ℕ, zero, suc, Bool, true, false, not, Option, none, some, List, [], ◌∷◌, ◌&&◌, ◌||◌,
  if◌then◌else◌, Text, ◌==◌, any,
}
use inverter_gateway.Transport.Pages.{JsonText, github_http_response, is_success}
use inverter_gateway.Transport.Diagnose.{
  Attempt, timed_out, completed, denied_read_diagnostic, transient_read_failure,
  denied_partial_read,
}

-- The bytes of a response, or a GitHubError with its `not_found`.
pub data Reply : Type 0 where
  body : Text → Reply
  failed : Bool → Reply

abbrev pub same_outcome : ℕ → ℕ → Bool
same_outcome returncode status =
    if returncode == 0 then is_success status else not (is_success status)

-- `response`, with a decoded response
unfoldable pub response : ℕ → ℕ × Text → Reply
response returncode (status, content) =
    if not (same_outcome returncode status)
    then failed false
    else if not (returncode == 0)
    then failed (status == 404)
    else body content

abbrev pub server_errors : List ℕ
server_errors = 500 ∷ 502 ∷ 503 ∷ 504 ∷ []

-- the failures that another attempt may mend
unfoldable pub is_transient : ℕ → ℕ → Text → Bool
is_transient returncode status stderr =
    returncode == 1
    && ((any (λ code. status == code) server_errors && not (denied_read_diagnostic stderr false))
        || (is_success status && transient_read_failure returncode stderr))

-- What an attempt answers, or what follows it.
abbrev pub answered : Option Reply → Reply → Reply
answered none rest = rest
answered (some reply) rest = reply

module _ (json : JsonText) (paginated : Bool) where
  abbrev pub of_response : ℕ → Text → Text → Bool → Option (ℕ × Text) → Option Reply
  of_response returncode stdout stderr final none =
      if not (transient_read_failure returncode stderr)
        || denied_partial_read stdout stderr paginated
        || final
      then some (failed false)
      else none
  of_response returncode stdout stderr final (some (status, content)) =
      if is_transient returncode status stderr && not final
      then none
      else some (response returncode (status, content))

  -- `_completed_read`: `none` where another attempt is allowed
  unfoldable pub completed_read : ℕ → Text → Text → Bool → Option Reply
  completed_read returncode stdout stderr final =
      of_response returncode stdout stderr final (github_http_response json stdout paginated)

  unfoldable pub read_attempt : Attempt → Bool → Option Reply
  read_attempt (timed_out stdout stderr) final =
      if denied_partial_read stdout stderr paginated || final then some (failed false) else none
  read_attempt (completed returncode stdout stderr) final =
      completed_read returncode stdout stderr final

  -- the loop: the attempts that are left, the last of them final
  unfoldable pub read_attempts : ℕ → ℕ → (ℕ → Attempt) → Reply
  read_attempts zero attempt run = answered (read_attempt (run attempt) true) (failed false)
  read_attempts (suc left) attempt run =
      answered (read_attempt (run attempt) false) (read_attempts left (suc attempt) run)

  -- `_read_get`: three attempts
  unfoldable pub read_get : (ℕ → Attempt) → Reply
  read_get run = read_attempts 2 0 run
