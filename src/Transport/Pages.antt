-- ===== src/Transport/Pages.antt =====
-- `github_http_response` of scripts/release_control.py. The JSON of the standard library is an interface:
-- `raw_decode` gives the text of the first JSON value and what follows it, `strict` is parse_json,
-- and `encode` is json_bytes. Surrogate escapes make the decoded text and its bytes the same thing.
use inverter_gateway.Prelude.{
  ℕ, zero, suc, Bool, not, Option, none, some, List, [], ◌∷◌, ◌++◌, ◌&&◌, ◌||◌, if◌then◌else◌, Text,
  ◌==◌, leb, ltb, is_empty, length, and_then,
}
use inverter_gateway.Json.{Json}
use inverter_gateway.Transport.Head.{github_http_head}

pub record JsonText : Type 0 where
  pub raw_decode : Text → Option (Text × Text)
  pub strict : Text → Option Json
  pub encode : List Json → Text

abbrev pub is_blank : ℕ → Bool
is_blank c = c == 32 || c == 9 || c == 13 || c == 10

unfoldable pub skip_blanks : Text → Text
skip_blanks [] = []
skip_blanks (c ∷ s) = let rest = skip_blanks s in if is_blank c then rest else c ∷ s

abbrev pub is_success : ℕ → Bool
is_success status = leb 200 status && ltb status 300

module _ (json : JsonText) where
  -- one page: its value, and what follows it and the blanks behind it
  unfoldable pub read_page : Text → Option (Json × Text)
  read_page text =
      and_then (json.raw_decode (skip_blanks text))
        λ (page, rest). and_then (json.strict page) λ value. some (value, skip_blanks rest)

  -- the loop over the pages, on fuel
  unfoldable pub read_pages : ℕ → ℕ → Text → List Json → Option (ℕ × Text)
  read_pages zero status text pages = none
  read_pages (suc fuel) status text pages =
      if not (is_success status)
      then some (status, [])
      else and_then (read_page text) λ (value, rest).
        if is_empty rest
        then some (status, json.encode (pages ++ value ∷ []))
        else and_then (github_http_head rest)
            λ (next, body). read_pages fuel next body (pages ++ value ∷ [])

  -- `github_http_response`
  unfoldable pub github_http_response : Text → Bool → Option (ℕ × Text)
  github_http_response stdout paginated = and_then (github_http_head stdout) λ (status, body).
      if paginated then read_pages (suc (length body)) status body [] else some (status, body)
