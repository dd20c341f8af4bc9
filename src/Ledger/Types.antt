-- ===== src/Ledger/Types.antt =====
-- The ledger of scripts/release_state.py and the GitHub repository that keeps it. GitHub answers
-- through `gh api`: its state and its two writes are an interface, with the documented laws of the
-- contents endpoint.
use inverter_gateway.Prelude.{
  ℕ, Bool, true, false, Option, none, some, List, [], ◌∷◌, ◌&&◌, Text, ◌=t◌, ◌==◌, if◌then◌else◌,
}
use inverter_gateway.Json.{Json, Fields}
use inverter_gateway.Plan.Identity.{
  Channel, nightly, beta, rc, stable, Sequence, absent, count, stamp,
}
use inverter_gateway.Plan.Policy.{same_promotion}
use inverter_gateway.Plan.Projection.{Plan}

-- `_Reservation`: `parent` is missing, or there with a value; `extra` holds any other keys.
pub record Reservation : Type 0 where
  pub plan : Plan
  pub parent : Option Json
  pub extra : Fields

-- `_Ledger`; its `schema` is always 1
pub record Ledger : Type 0 where
  pub counter : ℕ
  pub publication_floor : ℕ
  pub plans : List (Text × Reservation)

abbrev pub empty : Ledger
empty = record { counter = 0; publication_floor = 0; plans = [] }

unfoldable pub find : Text → List (Text × Reservation) → Option Reservation
find k [] = none
find k ((j, r) ∷ rs) = if j =t k then some r else find k rs

abbrev pub same_channel : Channel → Channel → Bool
same_channel nightly nightly = true
same_channel beta beta = true
same_channel rc rc = true
same_channel stable stable = true
same_channel _ _ = false

abbrev pub same_sequence : Sequence → Sequence → Bool
same_sequence absent absent = true
same_sequence (count n) (count m) = n == m
same_sequence (stamp s) (stamp t) = s =t t
same_sequence _ _ = false

abbrev pub same_number : Option ℕ → Option ℕ → Bool
same_number none none = true
same_number (some n) (some m) = n == m
same_number _ _ = false

-- `==` on the dictionaries of two validated plans
unfoldable pub same_plan : Plan → Plan → Bool
same_plan p q =
    p.base_version =t q.base_version
    && p.version =t q.version
    && same_channel p.channel q.channel
    && same_sequence p.sequence q.sequence
    && p.tag =t q.tag
    && p.source_sha =t q.source_sha
    && same_number p.build_number q.build_number
    && p.policy_sha256 =t q.policy_sha256
    && same_promotion p.promotion q.promotion

-- A release as `gh.pages("releases")` lists it; `published` says that `draft` is False.
pub record Release : Type 0 where
  pub tag_name : Option Text
  pub published : Bool

-- What one run reads of the repository: the names of its tags and its releases, the lookups of a
-- tag and of a release by tag, and whether the ledger's branch is there.
pub record View : Type 0 where
  pub tags : List Text
  pub releases : List Release
  pub has_tag : Text → Bool
  pub has_release : Text → Bool
  pub has_branch : Bool

-- The state file on its branch, as the contents endpoint returns it. `value` is the JSON value of
-- the decoded bytes, if they are JSON.
pub record Content : Type 0 where
  pub regular : Bool
  pub size : ℕ
  pub value : Option Json
  pub sha : Text

-- The repository on GitHub. A write that GitHub refuses gives `none`.
pub record Repository : Type 1 where
  pub State : Type 0
  pub view : State → View
  pub content : State → Option Content
  pub put : State → Json → Option Text → Option State
  pub create_branch : State → Text → Option State
