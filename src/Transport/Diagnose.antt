-- ===== src/Transport/Diagnose.antt =====
-- What scripts/release_control.py reads out of a failed `gh api` process: `_denied_read_diagnostic`,
-- `_transient_read_failure` and `_denied_partial_read`. The patterns are searched at each position.
use inverter_gateway.Prelude.{
  ℕ, ◌+◌, Bool, true, false, not, Option, none, some, List, [], ◌∷◌, ◌&&◌, ◌||◌, if◌then◌else◌,
  Text, codes, ◌==◌, leb, any, map, is_digit, strip_prefix, at_some, contains, take, length, ◌-◌,
}
use inverter_gateway.Transport.Head.{github_http_head, protocols, strip_any}

-- `bytes.lower()`
abbrev pub lower_byte : ℕ → ℕ
lower_byte c = if leb b'A' c && leb c b'Z' then c + 32 else c

abbrev pub denials : List Text
denials =
    codes "authentication"
    ∷ codes "authenticate"
    ∷ codes "authorization"
    ∷ codes "unauthorised"
    ∷ codes "unauthorized"
    ∷ codes "credentials"
    ∷ codes "forbidden"
    ∷ codes "permission denied"
    ∷ codes "access denied"
    ∷ codes "rate limit"
    ∷ codes "not found"
    ∷ codes "x509"
    ∷ codes "certificate"
    ∷ []

abbrev pub denied_codes : List Text
denied_codes = codes "401" ∷ codes "403" ∷ codes "404" ∷ codes "429" ∷ []

-- `(?:\D|$)`
abbrev pub ends_digits : Text → Bool
ends_digits [] = true
ends_digits (c ∷ s) = not (is_digit c)

abbrev pub is_joint : ℕ → Bool
is_joint c = c == b' ' || c == b'/' || c == b':'

unfoldable pub skip_joints : Text → Text
skip_joints [] = []
skip_joints (c ∷ s) = let rest = skip_joints s in if is_joint c then rest else c ∷ s

abbrev pub is_denied_code : Option Text → Bool
is_denied_code none = false
is_denied_code (some rest) = ends_digits rest

-- `http[ /:]*(?:401|403|404|429)(?:\D|$)`, at a position
abbrev pub http_denied : Text → Bool
http_denied s = elim (strip_prefix (codes "http") s) [
  | none ↦ false
  | some rest ↦ is_denied_code (strip_any denied_codes (skip_joints rest))
]

-- `_denied_read_diagnostic`
unfoldable pub denied_read_diagnostic : Text → Bool → Bool
denied_read_diagnostic stderr include_status =
    let text = map lower_byte stderr in
    any (λ mark. contains mark text) denials || (include_status && at_some http_denied text)

abbrev pub losses : List Text
losses =
    codes "connection reset by peer"
    ∷ codes "i/o timeout"
    ∷ codes "tls handshake timeout"
    ∷ codes "context deadline exceeded"
    ∷ codes "client.timeout exceeded"
    ∷ codes "server closed idle connection"
    ∷ codes "use of closed network connection"
    ∷ []

abbrev pub is_space : ℕ → Bool
is_space c = c == 32 || (leb 9 c && leb c 13)

abbrev pub ends_word : Option Text → Bool
ends_word none = false
ends_word (some []) = true
ends_word (some (c ∷ s)) = is_space c

abbrev pub is_word : ℕ → Bool
is_word c = is_digit c || (leb b'A' c && leb c b'Z') || (leb b'a' c && leb c b'z') || c == b'_'

-- `\b(?:unexpected )?eof(?:\s|$)`: the word `eof`; an "unexpected " in front of it ends with a
-- word boundary, so it changes nothing. The flag says that the byte before is of a word.
unfoldable pub has_eof : Bool → Text → Bool
has_eof inside [] = false
has_eof inside (c ∷ s) =
    (not inside && ends_word (strip_prefix (codes "eof") (c ∷ s))) || has_eof (is_word c) s

-- A process that ended, or that ran out of time; of a return code, only 0, 1 and others differ.
pub data Attempt : Type 0 where
  timed_out : Text → Text → Attempt
  completed : ℕ → Text → Text → Attempt

-- `_transient_read_failure`
unfoldable pub transient_read_failure : ℕ → Text → Bool
transient_read_failure returncode stderr =
    let text = map lower_byte stderr in
    returncode == 1
    && not (denied_read_diagnostic stderr true)
    && (has_eof false text || any (λ mark. contains mark text) losses)

-- `HTTP/(?:1\.[01]|2(?:\.0)?) (?:401|403|404|429)(?:\s|$)`, at a position
abbrev pub status_denied : Text → Bool
status_denied s = elim (strip_any protocols s) [
  | none ↦ false
  | some rest ↦ ends_word (strip_any denied_codes rest)
]

-- the same behind a line feed
abbrev pub line_denied : Text → Bool
line_denied [] = false
line_denied (c ∷ s) = c == 10 && status_denied s

-- The head of one complete response, where it is valid; otherwise all of the output.
unfoldable pub framed : Text → Text
framed stdout = elim (github_http_head stdout) [
  | none ↦ stdout
  | some (status, content) ↦ take (length stdout - length content) stdout
]

-- `_denied_partial_read`
unfoldable pub denied_partial_read : Text → Text → Bool → Bool
denied_partial_read stdout stderr paginated =
    let text = if paginated then stdout else framed stdout in
    denied_read_diagnostic stderr true || status_denied text || at_some line_denied text
