-- ===== src/Transport/Bounded.antt =====
-- What a read of scripts/release_control.py answers, attempt by attempt, and why its loops end.
use inverter_gateway.Prelude.{
  ℕ, zero, suc, ◌+◌, ◌<◌, Bool, true, false, not, Option, none, some, ◌≡◌, sym, ap, ◌∙◌, ◌&&◌, Text,
  ◌==◌, any, arith, Bool-cases, inl, inr, some_injective, if_true, if_false,
}
use inverter_gateway.Transport.Pages.{JsonText, is_success, github_http_response}
use inverter_gateway.Transport.Diagnose.{Attempt, timed_out, completed, denied_partial_read}
use inverter_gateway.Transport.Retry.{
  Reply, body, failed, response, server_errors, is_transient, answered, of_response, completed_read,
  read_attempt, read_attempts, read_get,
}

-- A successful response carries the content of a process that succeeded.
response-body :
    (returncode status : ℕ) (content bytes : Text)
    → response returncode (status, content) ≡ body bytes
    → (returncode ≡ 0) × (is_success status ≡ true) × (content ≡ bytes)
unfolding response
response-body returncode status content bytes h = ground arith

module _ (json : JsonText) (paginated : Bool) where
  -- The content of one attempt, complete and successful.
  pub record IsWhole (run : ℕ → Attempt) (content : Text) : Type 0 where
    pub attempt : ℕ
    pub stdout : Text
    pub stderr : Text
    pub status : ℕ
    pub bound : attempt < 3
    pub ran : run attempt ≡ completed 0 stdout stderr
    pub decoded : github_http_response json stdout paginated ≡ some (status, content)
    pub succeeded : is_success status ≡ true

  of_response-body :
      (returncode : ℕ) (stdout stderr : Text) (final : Bool) (o : Option (ℕ × Text)) (bytes : Text)
      → of_response json paginated returncode stdout stderr final o ≡ some (body bytes)
      → (status : ℕ) × (o ≡ some (status, bytes)) × (returncode ≡ 0) × (is_success status ≡ true)
  of_response-body returncode stdout stderr final none bytes h = absurd (ground arith)
  of_response-body returncode stdout stderr final (some (status, content)) bytes h =
      elim (Bool-cases (is_transient returncode status stderr && not final)) [
        | inl again ↦
            absurd (cc (if_true _ none (some (response returncode (status, content))) again, h))
        | inr done ↦
            let (ended, succeeded, same) = response-body returncode status content bytes (
              some_injective
                (sym (if_false _ none (some (response returncode (status, content))) done) ∙ h)) in
            (status, ap (λ t. some (status, t)) same, ended, succeeded)
      ]

  -- The one attempt that a content comes from.
  record IsContent (a : Attempt) (bytes : Text) : Type 0 where
    stdout : Text
    stderr : Text
    status : ℕ
    ran : a ≡ completed 0 stdout stderr
    decoded : github_http_response json stdout paginated ≡ some (status, bytes)
    succeeded : is_success status ≡ true

  read_attempt-body :
      (a : Attempt) (final : Bool) (bytes : Text)
      → read_attempt json paginated a final ≡ some (body bytes)
      → IsContent a bytes
  unfolding read_attempt completed_read
  read_attempt-body (timed_out stdout stderr) final bytes h = absurd (ground arith)
  read_attempt-body (completed returncode stdout stderr) final bytes h =
      let (status, decoded, ended, succeeded) =
        of_response-body returncode stdout stderr final (github_http_response json stdout paginated)
          bytes h in
      record {
        stdout = stdout;
        stderr = stderr;
        status = status;
        ran = ap (λ n. completed n stdout stderr) ended;
        decoded = decoded;
        succeeded = succeeded;
      }

  whole :
      (run : ℕ → Attempt) (bytes : Text) (n : ℕ)
      → n < 3
      → IsContent (run n) bytes
      → IsWhole run bytes
  whole run bytes n bound c = record {
    attempt = n;
    stdout = c.stdout;
    stderr = c.stderr;
    status = c.status;
    bound = bound;
    ran = c.ran;
    decoded = c.decoded;
    succeeded = c.succeeded;
  }

  answered-body {ℓ} :
      {P : Type ℓ} (o : Option Reply) (rest : Reply) (bytes : Text)
      → answered o rest ≡ body bytes
      → (o ≡ some (body bytes) → P)
      → (rest ≡ body bytes → P)
      → P
  answered-body none rest bytes h now later = later h
  answered-body (some reply) rest bytes h now later = now (ap some h)

  read_attempts-body :
      (left n : ℕ) (run : ℕ → Attempt) (bytes : Text)
      → left + n < 3
      → read_attempts json paginated left n run ≡ body bytes
      → IsWhole run bytes
  unfolding read_attempts
  read_attempts-body zero n run bytes bound h =
      answered-body (read_attempt json paginated (run n) true) (failed false) bytes h
        (λ now. whole run bytes n (omega (arith, bound)) (read_attempt-body (run n) true bytes now))
        (λ never. absurd (cc (never)))
  read_attempts-body (suc left) n run bytes bound h =
      answered-body (read_attempt json paginated (run n) false) _ bytes h
        (λ now.
          whole run bytes n (omega (arith, bound)) (read_attempt-body (run n) false bytes now))
        (λ later. read_attempts-body left (suc n) run bytes (omega (arith, bound)) later)

  -- What a read returns is the whole content of one of its three attempts, whose process succeeded with a
  -- status from 200 to 299; nothing of another attempt is in it.
  pub read_get-IsWhole :
      (run : ℕ → Attempt) (bytes : Text)
      → read_get json paginated run ≡ body bytes
      → IsWhole run bytes
  unfolding read_get
  read_get-IsWhole run bytes h = read_attempts-body 2 0 run bytes (omega arith) h

  -- A complete response that is neither a success nor one of the server errors 500, 502, 503 and 504 ends the
  -- read at the first attempt: the read fails, as not found exactly where the process failed with status 404.
  pub read_get-refused :
      (run : ℕ → Attempt) (returncode status : ℕ) (stdout stderr content : Text)
      → run 0 ≡ completed returncode stdout stderr
      → github_http_response json stdout paginated ≡ some (status, content)
      → is_success status ≡ false
      → any (λ code. status == code) server_errors ≡ false
      → read_get json paginated run ≡ failed (not (returncode == 0) && status == 404)
  unfolding read_get read_attempts read_attempt completed_read response is_transient
  read_get-refused run returncode status stdout stderr content ran decoded missed mild =
      rw (ran, decoded) (ground arith)

  -- Two attempts that run out of time, with no denial in what they wrote, do not spoil a third that succeeds.
  pub read_get-recovers :
      (run : ℕ → Attempt) (status : ℕ) (out err out' err' stdout stderr content : Text)
      → run 0 ≡ timed_out out err
      → denied_partial_read out err paginated ≡ false
      → run 1 ≡ timed_out out' err'
      → denied_partial_read out' err' paginated ≡ false
      → run 2 ≡ completed 0 stdout stderr
      → github_http_response json stdout paginated ≡ some (status, content)
      → is_success status ≡ true
      → read_get json paginated run ≡ body content
  unfolding read_get read_attempts read_attempt completed_read response is_transient
  read_get-recovers run status out err out' err' stdout stderr content r0 d0 r1 d1 r2 decoded
        succeeded =
      rw (r0, d0, r1, d1, r2, decoded) (ground arith)
