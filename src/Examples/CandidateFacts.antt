-- ===== src/Examples/CandidateFacts.antt =====
-- The next RC tag of the sample repository.
use inverter_gateway.Prelude.{none, some, ◌≡◌, ◌≢◌, refl, codes}
use inverter_gateway.Prelude.Result.{ok}
use inverter_gateway.Plan.Identity.{nightly, channel_of}
use inverter_gateway.Ledger.Candidate.{
  chosen_sequence, numbered_tag, tag_for, candidate_tag, Unnamed, candidate_tag-Unnamed,
}
use inverter_gateway.Examples.Values.{plan_code}
use inverter_gateway.Examples.Ledgers.{ledger_code, sample_view}

second_rc_tag :
    candidate_tag sample_view (codes "rc") (codes "1.2.0") 9 1 none (codes "20260101000000")
    ≡ ok (codes "v1.2.0-rc.2")
unfolding plan_code ledger_code chosen_sequence numbered_tag tag_for candidate_tag
second_rc_tag = refl

nightly_tag :
    candidate_tag sample_view (codes "nightly") (codes "1.2.0") 9 1 none (codes "20260101000000")
    ≡ ok (codes "v1.2.0-nightly.20260101000000.9.1")
unfolding plan_code ledger_code chosen_sequence numbered_tag tag_for candidate_tag
nightly_tag = refl

numbered_channel : channel_of (codes "rc") ≢ some nightly
unfolding plan_code
numbered_channel h = absurd (cc (h))

candidate_tag-Unnamed_example : Unnamed sample_view (codes "v1.2.0-rc.2")
candidate_tag-Unnamed_example =
    candidate_tag-Unnamed sample_view (codes "rc") (codes "1.2.0") 9 1 (codes "20260101000000")
      (codes "v1.2.0-rc.2") numbered_channel second_rc_tag
