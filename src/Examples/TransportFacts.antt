-- ===== src/Examples/TransportFacts.antt =====
-- Answers of `gh`, and the theorems of Transport at them.
use inverter_gateway.Prelude.{
  ℕ, zero, suc, true, false, Option, none, some, [], ◌∷◌, ◌≡◌, refl, Text, codes, read, read_from,
  strip_prefix, at_some,
}
use inverter_gateway.Json.{null}
use inverter_gateway.Transport.Head.{
  split_head, split_lines, status_line, after_name, github_http_head,
}
use inverter_gateway.Transport.Pages.{
  JsonText, skip_blanks, read_page, read_pages, github_http_response,
}
use inverter_gateway.Transport.Diagnose.{
  Attempt, timed_out, completed, skip_joints, denied_read_diagnostic, has_eof,
  transient_read_failure, framed, denied_partial_read,
}
use inverter_gateway.Transport.Retry.{
  body, failed, response, is_transient, completed_read, read_attempt, read_attempts, read_get,
}
use inverter_gateway.Transport.Bounded.{
  IsWhole, read_get-IsWhole, read_get-refused, read_get-recovers,
}

-- Opening this opens the transport, so that it runs on concrete answers.
unfoldable transport_code : Unit {0}
unfolding read read_from strip_prefix at_some split_head split_lines status_line after_name
    github_http_head skip_blanks read_page read_pages github_http_response skip_joints
    denied_read_diagnostic has_eof transient_read_failure framed denied_partial_read response
    is_transient completed_read read_attempt read_attempts read_get
transport_code = tt

-- A decoder whose values are single characters.
abbrev first_character : Text → Option (Text × Text)
first_character [] = none
first_character (c ∷ s) = some (c ∷ [], s)

abbrev one_character : JsonText
one_character = record {
  raw_decode = first_character;
  strict = λ page. some null;
  encode = λ values. codes "pages";
}

abbrev ok_answer : Text
ok_answer = codes "HTTP/2.0 200 OK\nEtag: x\n\nhello"

abbrev missing_answer : Text
missing_answer = codes "HTTP/1.1 404 Not Found\n\n{}"

abbrev lost : Attempt
lost = timed_out [] (codes "gh: i/o timeout")

abbrev third_time : ℕ → Attempt
third_time zero = lost
third_time (suc zero) = lost
third_time (suc (suc n)) = completed 0 ok_answer []

abbrev not_there : ℕ → Attempt
not_there n = completed 1 missing_answer (codes "gh: Not Found (HTTP 404)")

third_time_read : read_get one_character false third_time ≡ body (codes "hello")
unfolding transport_code
third_time_read = refl

ok_decoded : github_http_response one_character ok_answer false ≡ some (200, codes "hello")
unfolding transport_code
ok_decoded = refl

missing_decoded : github_http_response one_character missing_answer false ≡ some (404, codes "{}")
unfolding transport_code
missing_decoded = refl

not_denied : denied_partial_read [] (codes "gh: i/o timeout") false ≡ false
unfolding transport_code
not_denied = refl

-- A reset with a denial in its diagnostics is not tried again.
reset_denied :
    read_get one_character false (λ n. completed 1 [] (codes "connection reset by peer; HTTP 403"))
    ≡ failed false
unfolding transport_code
reset_denied = refl

read_get-IsWhole_example : IsWhole one_character false third_time (codes "hello")
read_get-IsWhole_example =
    read_get-IsWhole one_character false third_time (codes "hello") third_time_read

read_get-refused_example : read_get one_character false not_there ≡ failed true
read_get-refused_example =
    read_get-refused one_character false not_there 1 404 missing_answer
      (codes "gh: Not Found (HTTP 404)") (codes "{}") refl missing_decoded refl refl

read_get-recovers_example : read_get one_character false third_time ≡ body (codes "hello")
read_get-recovers_example =
    read_get-recovers one_character false third_time 200 [] (codes "gh: i/o timeout") []
      (codes "gh: i/o timeout") ok_answer [] (codes "hello") refl not_denied refl not_denied refl
      ok_decoded refl
