-- ===== src/Ledger/Candidate.antt =====
-- `candidate_tag` of scripts/release_control.py. `now` is the time as `%Y%m%d%H%M%S`.
use inverter_gateway.Prelude.{
  ℕ, Bool, true, false, Option, none, some, ◌++◌, ◌≡◌, ◌≢◌, refl, subst, Text, codes, ltb, show,
  All,
}
use inverter_gateway.Prelude.Result.{
  Result, ok, err, require, ◌>>=◌, ◌>>◌, bind_ok, guard_ok, ok-injective,
}
use inverter_gateway.Plan.Patterns.{is_base}
use inverter_gateway.Plan.Identity.{Channel, nightly, beta, rc, stable, channel_of}
use inverter_gateway.Ledger.Types.{View}
use inverter_gateway.Ledger.Sequence.{tag_prefix, next_sequence, release_names}
use inverter_gateway.Ledger.Sequence.Unused.{next_sequence-unused}

abbrev pub is_none : Option ℕ → Bool
is_none none = true
is_none (some n) = false

-- the given sequence, or the next one
unfoldable pub chosen_sequence : View → Text → Channel → Option ℕ → Result ℕ
chosen_sequence v base channel none = next_sequence v base channel
chosen_sequence v base channel (some n) = do
  require (ltb 0 n) "sequence must be a positive integer"
  ok n

unfoldable pub numbered_tag : View → Text → Channel → Option ℕ → Result Text
numbered_tag v base channel sequence = do
  n ← chosen_sequence v base channel sequence
  ok (tag_prefix base channel ++ show n)

unfoldable pub tag_for : View → Option Channel → Text → ℕ → ℕ → Option ℕ → Text → Result Text
tag_for v (some nightly) base run attempt sequence now = do
  require (is_none sequence) "Nightly tags do not accept a sequence"
  ok (tag_prefix base nightly ++ now ++ codes "." ++ show run ++ codes "." ++ show attempt)
tag_for v (some beta) base run attempt sequence now = numbered_tag v base beta sequence
tag_for v (some rc) base run attempt sequence now = numbered_tag v base rc sequence
tag_for v _ base run attempt sequence now = err "Invalid candidate channel"

-- `candidate_tag`
unfoldable pub candidate_tag : View → Text → Text → ℕ → ℕ → Option ℕ → Text → Result Text
candidate_tag v channel base run attempt sequence now = do
  require (is_base base) "Version must be strict X.Y.Z without leading zeros"
  tag_for v (channel_of channel) base run attempt sequence now

-- The names of the repository's tags and releases all differ from a tag.
abbrev pub Unnamed : View → Text → Type 0
Unnamed v tag = All (λ name. name ≢ tag) (v.tags ++ release_names v.releases)

numbered_tag-Unnamed :
    (v : View) (base : Text) (c : Channel) (tag : Text)
    → numbered_tag v base c none ≡ ok tag
    → Unnamed v tag
unfolding numbered_tag chosen_sequence
numbered_tag-Unnamed v base c tag h = bind_ok (next_sequence v base c) _ h λ n found made.
    subst (Unnamed v) (ok-injective _ _ made) (next_sequence-unused v base c n found)

tag_for-Unnamed :
    (v : View) (c : Option Channel) (base : Text) (run attempt : ℕ) (now tag : Text)
    → c ≢ some nightly
    → tag_for v c base run attempt none now ≡ ok tag
    → Unnamed v tag
unfolding tag_for
tag_for-Unnamed v (some nightly) base run attempt now tag dated h = absurd (dated refl)
tag_for-Unnamed v (some beta) base run attempt now tag dated h =
    numbered_tag-Unnamed v base beta tag h
tag_for-Unnamed v (some rc) base run attempt now tag dated h = numbered_tag-Unnamed v base rc tag h
tag_for-Unnamed v (some stable) base run attempt now tag dated h = absurd (cc)
tag_for-Unnamed v none base run attempt now tag dated h = absurd (cc)

-- A candidate tag that is made without a given sequence, for another channel than nightly, is the name of no
-- tag and of no release.
pub candidate_tag-Unnamed :
    (v : View) (channel base : Text) (run attempt : ℕ) (now tag : Text)
    → channel_of channel ≢ some nightly
    → candidate_tag v channel base run attempt none now ≡ ok tag
    → Unnamed v tag
unfolding candidate_tag
candidate_tag-Unnamed v channel base run attempt now tag dated h =
    guard_ok (is_base base) _ _ h
      λ strict made. tag_for-Unnamed v (channel_of channel) base run attempt now tag dated made
