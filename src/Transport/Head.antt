-- ===== src/Transport/Head.antt =====
-- `_github_http_head` of scripts/release_control.py, on the bytes that `gh` wrote.
use inverter_gateway.Prelude.{
  ℕ, Bool, true, false, Option, none, some, List, [], ◌∷◌, ◌&&◌, ◌||◌, if◌then◌else◌, Text, codes,
  ◌==◌, leb, all, read, is_digit, strip_prefix, first_of, and_then,
}

-- the first of some prefixes that a text has, taken off
abbrev pub strip_any : List Text → Text → Option Text
strip_any [] s = none
strip_any (p ∷ ps) s = first_of (strip_prefix p s) (strip_any ps s)

-- `\r?\n\r?\n`
abbrev pub blank_lines : List Text
blank_lines =
    (13 ∷ 10 ∷ 13 ∷ 10 ∷ []) ∷ (13 ∷ 10 ∷ 10 ∷ []) ∷ (10 ∷ 13 ∷ 10 ∷ []) ∷ (10 ∷ 10 ∷ []) ∷ []

abbrev pub before_byte : ℕ → Option (Text × Text) → Option (Text × Text)
before_byte c none = none
before_byte c (some (head, body)) = some (c ∷ head, body)

-- the leftmost blank line: the bytes in front of it and the bytes behind it
unfoldable pub split_head : Text → Option (Text × Text)
split_head [] = none
split_head (c ∷ s) =
    first_of (and_then (strip_any blank_lines (c ∷ s)) λ body. some ([], body))
      (before_byte c (split_head s))

abbrev pub onto_line : ℕ → List Text → List Text
onto_line c [] = (c ∷ []) ∷ []
onto_line c (line ∷ lines) = (c ∷ line) ∷ lines

-- `bytes.splitlines()`; the flag says that the byte before was a carriage return, which ended its
-- line together with a line feed that follows
unfoldable pub split_lines : Bool → Text → List Text
split_lines after_return [] = []
split_lines after_return (c ∷ s) =
    let rest = split_lines (c == 13) s in
    if c == 10 && after_return
    then rest
    else if c == 10 || c == 13
    then [] ∷ rest
    else onto_line c rest

-- `HTTP/(?:1\.[01]|2(?:\.0)?) `
abbrev pub protocols : List Text
protocols = codes "HTTP/1.0 " ∷ codes "HTTP/1.1 " ∷ codes "HTTP/2.0 " ∷ codes "HTTP/2 " ∷ []

abbrev pub starts_blank : Text → Bool
starts_blank [] = true
starts_blank (c ∷ s) = c == 32

-- `([1-5]\d{2})(?: [^\r\n]*)?`, to the end of a line
abbrev pub status_code : Text → Option ℕ
status_code (a ∷ b ∷ c ∷ rest) =
    if leb b'1' a && leb a b'5' && is_digit b && is_digit c && starts_blank rest
    then some (read (a ∷ b ∷ c ∷ []))
    else none
status_code _ = none

unfoldable pub status_line : Text → Option ℕ
status_line line = elim (strip_any protocols line) [ none ↦ none | some s ↦ status_code s ]

-- ``[!#$%&'*+.^_`|~0-9A-Za-z-]``
abbrev pub is_token : ℕ → Bool
is_token c =
    is_digit c
    || (leb b'A' c && leb c b'Z')
    || (leb 94 c && leb c 122)
    || c == b'!'
    || (leb 35 c && leb c 39)
    || c == b'*'
    || c == b'+'
    || c == b'-'
    || c == b'.'
    || c == b'|'
    || c == b'~'

-- characters of a name, and a colon
unfoldable pub after_name : Text → Bool
after_name [] = false
after_name (c ∷ s) = c == b':' || (is_token c && after_name s)

abbrev pub header_line : Text → Bool
header_line [] = false
header_line (c ∷ s) = is_token c && after_name s

abbrev pub checked_lines : List Text → Option ℕ
checked_lines [] = none
checked_lines (line ∷ lines) = if all header_line lines then status_line line else none

-- `_github_http_head`: the status and the bytes behind the head, or a GitHubError
unfoldable pub github_http_head : Text → Option (ℕ × Text)
github_http_head bytes =
    and_then (split_head bytes) λ (head, body).
      and_then (checked_lines (split_lines false head)) λ status. some (status, body)
