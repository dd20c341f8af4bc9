-- ===== src/Transport/Ends.antt =====
-- The loop of `github_http_response` over the pages ends: each page takes bytes of the response.
use inverter_gateway.Prelude.{◌≤◌, some, ◌≡◌, Text, length}
use inverter_gateway.Json.{Json}
use inverter_gateway.Transport.Pages.{JsonText}

-- The JSON decoder leaves no more than it was given.
abbrev pub Shrinks : JsonText → Type 0
Shrinks json = (s page rest : Text) → json.raw_decode s ≡ some (page, rest) → length rest ≤ length s
