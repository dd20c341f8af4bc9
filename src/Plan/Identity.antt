-- ===== src/Plan/Identity.antt =====
-- `_identity` of scripts/version_plan.py: the base version, the channel and the sequence of a
-- release, and the version text that they make.
pub mod Inversion
pub mod Injective
use inverter_gateway.Prelude.{
  ℕ, zero, Bool, true, false, Option, none, some, List, [], ◌∷◌, ◌++◌, ltb, if◌then◌else◌, Text,
  codes, ◌=t◌, show,
}
use inverter_gateway.Prelude.Result.{Result, ok, err, require, ◌>>=◌, ◌>>◌}
use inverter_gateway.Json.{Json, null, int, str}
use inverter_gateway.Plan.Patterns.{is_base, is_nightly, split_on}

pub data Channel : Type 0 where
  nightly beta rc stable : Channel

abbrev pub channel_name : Channel → Text
channel_name nightly = codes "nightly"
channel_name beta = codes "beta"
channel_name rc = codes "rc"
channel_name stable = codes "stable"

unfoldable pub channel_of : Text → Option Channel
unfolding ◌=t◌
channel_of s =
    if s =t codes "nightly"
    then some nightly
    else if s =t codes "beta"
    then some beta
    else if s =t codes "rc"
    then some rc
    else if s =t codes "stable"
    then some stable
    else none

-- What a validated `sequence` can be: None, a positive integer, or the nightly suffix.
pub data Sequence : Type 0 where
  absent : Sequence
  count : ℕ → Sequence
  stamp : Text → Sequence

-- A validated identity and its version text, which `_identity` returns.
pub record Identity : Type 0 where
  pub base : Text
  pub channel : Channel
  pub sequence : Sequence
  pub version : Text

abbrev pub sequence_text : Sequence → Text
sequence_text absent = []
sequence_text (count n) = show n
sequence_text (stamp s) = s

-- the f-string at the end, and the early return for stable
abbrev pub version_text : Text → Channel → Sequence → Text
version_text b stable s = b
version_text b c s = b ++ b'-' ∷ (channel_name c ++ b'.' ∷ sequence_text s)

abbrev pub first : List Text → Text
first [] = []
first (x ∷ xs) = x

unfoldable pub base_text : Json → Result Text
unfolding is_base
base_text (str s) = do
  require (is_base s) "Base version must be strict X.Y.Z without prefix or suffix"
  ok s
base_text _ = err "Base version must be strict X.Y.Z without prefix or suffix"

abbrev pub known : Option Channel → Result Channel
known none = err "Unsupported release channel"
known (some c) = ok c

unfoldable pub channel_value : Json → Result Channel
unfolding channel_of
channel_value (str s) = known (channel_of s)
channel_value _ = err "Unsupported release channel"

-- `datetime.strptime` is the standard library's: `valid_time` says which 14 digits it takes.
module _ (valid_time : Text → Bool) where
  unfoldable pub stamp_value : Text → Result Sequence
  unfolding is_nightly split_on
  stamp_value s = do
    require (is_nightly s) "Nightly requires frozen UTCtimestamp.run.attempt suffix"
    require (valid_time (first (split_on b'.' s))) "Invalid nightly UTC timestamp"
    ok (stamp s)

  abbrev pub count_value : Json → Result Sequence
  count_value (int n) = do
    require (ltb 0 n) "Beta/RC sequence must be a positive integer"
    ok (count n)
  count_value _ = err "Beta/RC sequence must be a positive integer"

  unfoldable pub sequence_value : Channel → Json → Result Sequence
  sequence_value stable null = ok absent
  sequence_value stable _ = err "Stable must not have a sequence"
  sequence_value nightly (str s) = stamp_value s
  sequence_value nightly _ = err "Nightly requires frozen UTCtimestamp.run.attempt suffix"
  sequence_value beta j = count_value j
  sequence_value rc j = count_value j

  unfoldable pub identity : Json → Json → Json → Result Identity
  identity base channel sequence = do
    b ← base_text base
    c ← channel_value channel
    s ← sequence_value c sequence
    ok (record { base = b; channel = c; sequence = s; version = version_text b c s })
