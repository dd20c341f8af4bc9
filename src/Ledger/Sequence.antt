-- ===== src/Ledger/Sequence.antt =====
-- `ensure_absent` and `next_sequence` of scripts/release_control.py.
pub mod Unused
use inverter_gateway.Prelude.{
  ℕ, zero, suc, ◌+◌, ◌≤◌, Bool, true, false, not, Option, none, some, List, [], ◌∷◌, ◌++◌, ◌&&◌,
  ◌||◌, Text, codes, ◌=t◌, ◌==◌, ltb, leb, if◌then◌else◌, any, all, keep, map, max, maximum, show,
  read, strip_prefix, is_positive_numeral, String,
}
use inverter_gateway.Prelude.Result.{Result, ok, err, require, ◌>>=◌, ◌>>◌}
use inverter_gateway.Json.{Json, Fields, null, int, str, obj, field, end, get, as_obj, as_nat}
use inverter_gateway.Json.Equality.{py_eq}
use inverter_gateway.Plan.Patterns.{is_base, is_sha}
use inverter_gateway.Plan.Identity.{
  Channel, nightly, beta, rc, stable, channel_name, channel_of, Sequence, absent, count, stamp,
}
use inverter_gateway.Plan.Projection.{Plan}
use inverter_gateway.Plan.Create.{create_plan, validate_plan, to_json}
use inverter_gateway.Plan.Identity.Inversion.{sequence_json}
use inverter_gateway.Plan.Declared.{present}
use inverter_gateway.Ledger.Types.{
  Reservation, Ledger, empty, find, same_channel, Release, View, Content, Repository,
}

-- `ensure_absent`
abbrev pub is_named : Text → Release → Bool
is_named tag r = elim r.tag_name [ none ↦ false | some name ↦ name =t tag ]

unfoldable pub ensure_absent : View → Text → Result (Unit {0})
ensure_absent v tag = do
  require (not (v.has_tag tag)) "Tag already exists"
  require (not (v.has_release tag)) "Release already exists"
  require (not (any (is_named tag) v.releases)) "Draft release already exists"

-- the names that `next_sequence` looks through
abbrev pub release_names : List Release → List Text
release_names [] = []
release_names (r ∷ rs) = elim r.tag_name [ none ↦ [] | some name ↦ name ] ∷ release_names rs

abbrev pub numeral_value : Option Text → List ℕ
numeral_value none = []
numeral_value (some s) = if is_positive_numeral s then read s ∷ [] else []

-- the loop over the tags: the numbers behind the prefix
unfoldable pub sequence_numbers : Text → List Text → List ℕ
sequence_numbers prefix [] = []
sequence_numbers prefix (tag ∷ tags) =
    numeral_value (strip_prefix prefix tag) ++ sequence_numbers prefix tags

abbrev pub tag_prefix : Text → Channel → Text
tag_prefix base channel = b'v' ∷ (base ++ b'-' ∷ (channel_name channel ++ b'.' ∷ []))

-- `next_sequence`, for the channels beta and rc
unfoldable pub next_sequence : View → Text → Channel → Result ℕ
next_sequence v base channel = do
  require (same_channel channel beta || same_channel channel rc)
      "Sequence only applies to beta and rc"
  require (is_base base) "Version must be strict X.Y.Z without leading zeros"
  ok (maximum (sequence_numbers (tag_prefix base channel) (v.tags ++ release_names v.releases)) + 1)
