-- ===== src/Examples/LedgerFacts.antt =====
-- The theorems on the ledger, at the sample ledgers and the small repository.
use inverter_gateway.Prelude.{
  ◌⊎◌, ℕ, ◌≤◌, ◌<◌, true, false, none, some, [], ◌∷◌, ◌++◌, ◌≡◌, ◌≢◌, refl, inr, codes, show, All,
}
use inverter_gateway.Prelude.Result.{ok}
use inverter_gateway.Json.{null, end}
use inverter_gateway.Plan.Patterns.{is_sha}
use inverter_gateway.Plan.Identity.{rc, count}
use inverter_gateway.Plan.Projection.{Plan}
use inverter_gateway.Ledger.Types.{Reservation, Ledger, empty, same_plan}
use inverter_gateway.Ledger.Read.{
  read_state, decode_ledger, encode_ledger, read_plans, read_reservation,
}
use inverter_gateway.Ledger.Read.Readable.{IsReadable, decode_ledger-IsReadable}
use inverter_gateway.Ledger.Concurrent.RoundTrip.{put-write_state, read_state-write_state}
use inverter_gateway.Ledger.Sequence.{next_sequence, tag_prefix, release_names}
use inverter_gateway.Ledger.Sequence.Unused.{next_sequence-unused}
use inverter_gateway.Ledger.Reserve.{Request, earlier, fresh, decide, write_state}
use inverter_gateway.Ledger.Reserve.Tags.{TagUnused, decide-TagUnused}
use inverter_gateway.Ledger.Reserve.Retry.{decide-retry}
use inverter_gateway.Ledger.Publish.{
  publish_floor, verify_reservation, newer_or_equal, is_published,
}
use inverter_gateway.Ledger.Publish.Order.{publish_floor-order}
use inverter_gateway.Ledger.Publish.Bounds.{publish_floor-le-counter}
use inverter_gateway.Ledger.Concurrent.{here, next}
use inverter_gateway.Ledger.Concurrent.Safety.{Next, Reach-Next, write-current}
use inverter_gateway.Examples.Values.{
  any_time, sample_sha, fixed_digest, fixed_digest-hex, sample_plan, plan_code,
}
use inverter_gateway.Examples.Ledgers.{
  sample_request, sample_view, sample_reservation, sample_ledger, sample_decided, small_repository,
  small_repository-IsContentsApi, first_content, first_write, first_read, first-Step, empty-IsWell,
  ledger_code,
}

Reach-Next_example :
    Next any_time fixed_digest fixed_digest-hex small_repository small_repository-IsContentsApi
      empty true
Reach-Next_example =
    Reach-Next any_time fixed_digest fixed_digest-hex small_repository
      small_repository-IsContentsApi false true empty refl empty-IsWell (next here first-Step)

write-current_example : ◌≡◌ {A = Ledger} empty empty
write-current_example =
    write-current any_time fixed_digest fixed_digest-hex small_repository
      small_repository-IsContentsApi false false true empty empty (encode_ledger sample_ledger) none
      first_read first_write refl

sample_json_read :
    decode_ledger any_time fixed_digest (encode_ledger sample_ledger) ≡ ok sample_ledger
unfolding plan_code ledger_code decode_ledger read_plans read_reservation
sample_json_read = refl

sample-IsReadable : IsReadable any_time sample_ledger
sample-IsReadable =
    decode_ledger-IsReadable any_time fixed_digest (encode_ledger sample_ledger) sample_ledger
      sample_json_read

decode_ledger-IsReadable_example : IsReadable any_time sample_ledger
decode_ledger-IsReadable_example =
    decode_ledger-IsReadable any_time fixed_digest (encode_ledger sample_ledger) sample_ledger
      sample_json_read

first_written : write_state small_repository false sample_ledger none ≡ (ok tt, true)
first_written = put-write_state small_repository false true sample_ledger none first_write

sample_sha_given : is_sha sample_sha ≡ true
unfolding plan_code
sample_sha_given = refl

read_state-write_state_example :
    read_state any_time fixed_digest (small_repository.content true) true
    ≡ ok (sample_ledger, some sample_sha)
read_state-write_state_example =
    read_state-write_state any_time fixed_digest small_repository small_repository-IsContentsApi
      false true sample_ledger none first_content true sample-IsReadable first_written refl refl
      sample_sha_given

abbrev second_request : Request
second_request = record sample_request { run_id = 8 }

abbrev second_plan : Plan
second_plan = record sample_plan {
  version = codes "1.2.0-rc.3";
  sequence = count 3;
  tag = codes "v1.2.0-rc.3";
  build_number = some 12;
}

abbrev second_entry : Reservation
second_entry = record { plan = second_plan; parent = some null; extra = end }

-- The ledger after another run has reserved the next RC.
abbrev second_ledger : Ledger
second_ledger = record {
  counter = 12;
  publication_floor = 0;
  plans = (codes "7", sample_reservation) ∷ (codes "8", second_entry) ∷ [];
}

second_decided :
    decide any_time fixed_digest sample_view sample_ledger second_request
    ≡ ok (fresh second_plan second_ledger)
unfolding plan_code ledger_code
second_decided = refl

decide-TagUnused_example : TagUnused (codes "v1.2.0-rc.3") sample_ledger.plans
decide-TagUnused_example =
    decide-TagUnused any_time fixed_digest fixed_digest-hex sample_view sample_ledger second_request
      second_plan second_ledger sample-IsReadable second_decided (inr refl)

decide-retry_example :
    decide any_time fixed_digest sample_view second_ledger
      (record sample_request { attempt = 2; now = codes "20260102000000" })
    ≡ ok (earlier sample_plan)
unfolding ledger_code
decide-retry_example =
    decide-retry any_time fixed_digest fixed_digest-hex sample_view sample_view empty sample_ledger
      second_ledger sample_request sample_plan 2 (codes "20260102000000") null
      ((codes "8", second_entry) ∷ []) sample_decided refl refl

published_floor :
    publish_floor any_time fixed_digest sample_view sample_ledger sample_plan 7 null false
    ≡ ok (record sample_ledger { publication_floor = 11 })
unfolding plan_code ledger_code publish_floor verify_reservation newer_or_equal is_published
    same_plan
published_floor = refl

publish_floor-order_example :
    (sample_plan.build_number ≡ some 11)
    × (0 ≤ 11)
    × ((false ≡ true) ⊎ (0 < 11))
    × (◌≡◌ {A = ℕ} 11 11)
    × (sample_ledger.plans ≡ sample_ledger.plans)
publish_floor-order_example =
    publish_floor-order any_time fixed_digest sample_view sample_ledger
      (record sample_ledger { publication_floor = 11 }) sample_plan 7 null false published_floor

publish_floor-le-counter_example : 11 ≤ 11
publish_floor-le-counter_example =
    publish_floor-le-counter any_time fixed_digest sample_view sample_ledger
      (record sample_ledger { publication_floor = 11 }) sample_plan 7 null false sample-IsReadable
      published_floor

second_rc : next_sequence sample_view (codes "1.2.0") rc ≡ ok 2
unfolding plan_code ledger_code
second_rc = refl

next_sequence-unused_example :
    All
      (λ tag. tag ≢ tag_prefix (codes "1.2.0") rc ++ show 2)
      (sample_view.tags ++ release_names sample_view.releases)
next_sequence-unused_example = next_sequence-unused sample_view (codes "1.2.0") rc 2 second_rc
