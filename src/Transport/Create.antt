-- ===== src/Transport/Create.antt =====
-- `create_release_once` of scripts/release_control.py: the outcome of the one request that creates a release. `decode` is
-- parse_json on the body of the response.
use inverter_gateway.Prelude.{
  ℕ, Bool, true, false, not, Option, none, some, List, [], ◌∷◌, ◌&&◌, ◌||◌, if◌then◌else◌, Text,
  codes, ◌==◌, any, all, ltb, leb, is_digit, strip_prefix, at_some,
}
use inverter_gateway.Json.{Json, Fields, obj}
use inverter_gateway.Transport.Head.{strip_any}
use inverter_gateway.Transport.Pages.{JsonText, github_http_response, is_success}
use inverter_gateway.Transport.Diagnose.{
  Attempt, timed_out, completed, denied_partial_read, transient_read_failure, is_space,
}
use inverter_gateway.Transport.Retry.{server_errors}

-- The release, an AmbiguousCreate, whose release may exist, or another exception.
pub data Outcome : Type 0 where
  created : Fields → Outcome
  ambiguous : Outcome
  refused : Outcome

-- What parse_json makes of a body: a value, a text that is no JSON, or a ReleaseError of its own.
pub data Decoded : Type 0 where
  value : Json → Decoded
  undecodable : Decoded
  rejected : Decoded

-- a status that a space or the end follows
abbrev pub ends_number : Text → Bool
ends_number [] = true
ends_number (c ∷ s) = is_space c

abbrev pub is_client_error : Text → Bool
is_client_error (a ∷ b ∷ c ∷ s) = a == b'4' && is_digit b && is_digit c && ends_number s
is_client_error _ = false

abbrev pub http_versions : List Text
http_versions = codes "HTTP/1.0 " ∷ codes "HTTP/1.1 " ∷ codes "HTTP/2 " ∷ codes "HTTP/2.0 " ∷ []

-- `HTTP/(?:1\.[01]|2(?:\.0)?) 4\d\d(?:\s|$)`
unfoldable pub is_refusal_head : Text → Bool
is_refusal_head stdout = elim (strip_any http_versions stdout) [
  | none ↦ false
  | some rest ↦ is_client_error rest
]

abbrev pub skip_spaces : Text → Text
skip_spaces [] = []
skip_spaces (c ∷ s) = if is_space c then skip_spaces s else c ∷ s

abbrev pub is_json_eof : Text → Bool
is_json_eof s = elim (strip_prefix (codes "unexpected end of JSON input") s) [
  | none ↦ false
  | some rest ↦ all is_space rest
]

abbrev pub is_json_eof_after : Text → Bool
is_json_eof_after [] = false
is_json_eof_after (c ∷ s) = c == b':' && is_json_eof (skip_spaces s)

-- `(?:^|:\s*)unexpected end of JSON input\s*$`
unfoldable pub has_json_eof : Text → Bool
has_json_eof stderr = is_json_eof stderr || at_some is_json_eof_after stderr

abbrev pub created_release : Decoded → Outcome
created_release (value (obj release)) = created release
created_release (value _) = refused
created_release undecodable = ambiguous
created_release rejected = refused

module _ (json : JsonText) (decode : Text → Decoded) where
  unfoldable pub is_denied : Text → Text → Bool
  is_denied stdout stderr = denied_partial_read stdout stderr false || is_refusal_head stdout

  abbrev pub is_lost : ℕ → Text → Bool
  is_lost returncode stderr =
      transient_read_failure returncode stderr || (returncode == 1 && has_json_eof stderr)

  abbrev pub is_ambiguous : ℕ → ℕ → Text → Bool
  is_ambiguous returncode status stderr =
      (any (λ code. status == code) server_errors && (returncode == 0 || returncode == 1))
      || (is_success status && is_lost returncode stderr)

  abbrev pub of_create : ℕ → Text → Text → Option (ℕ × Text) → Outcome
  of_create returncode stdout stderr none =
      if is_lost returncode stderr && not (is_denied stdout stderr) then ambiguous else refused
  of_create returncode stdout stderr (some (status, raw)) =
      if is_denied stdout stderr || (leb 400 status && ltb status 500)
      then refused
      else if is_ambiguous returncode status stderr
      then ambiguous
      else if returncode == 0 && status == 201
      then created_release (decode raw)
      else refused

  -- `create_release_once`, from the result of its process
  unfoldable pub create_release_once : Attempt → Outcome
  create_release_once (timed_out stdout stderr) =
      if is_denied stdout stderr then refused else ambiguous
  create_release_once (completed returncode stdout stderr) =
      of_create returncode stdout stderr (github_http_response json stdout false)
