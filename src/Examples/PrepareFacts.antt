-- ===== src/Examples/PrepareFacts.antt =====
-- Tags of a repository, and the theorems of Prepare at them.
use inverter_gateway.Prelude.{
  All, ◌≤◌, Bool, true, false, List, [], ◌∷◌, ◌≡◌, refl, Text, codes, ◌=t◌, show, read, read_from,
  is_numeral, strip_prefix,
}
use inverter_gateway.Prelude.Result.{ok}
use inverter_gateway.Plan.Patterns.{split_on, is_base}
use inverter_gateway.Prepare.Versions.{
  Version, base_of, tag_of, precedes, released, releases_of, latest,
}
use inverter_gateway.Prepare.Choose.{next_patch, bumped_version, free_patch, choose_version}
use inverter_gateway.Json.{Json, Fields, boolean, str, arr, obj, cons, nil, field, end, get}
use inverter_gateway.Prepare.PullRequests.{
  own_row, own_rows, row_list, own_pull_requests, IsOwn, own_pull_requests-IsOwn,
}
use inverter_gateway.Prepare.Next.{
  IsFreeVersion, AllBefore, choose_version-next_patch, choose_version-IsFreeVersion,
}

abbrev current_base : Version
current_base = record { major = 1; minor = 2; patch = 3 }

abbrev reachable : List Text
reachable = codes "v1.2.3" ∷ codes "v1.3.0-rc.1" ∷ codes "v1.2.4" ∷ []

abbrev taken : List Text
taken = codes "v1.2.5" ∷ reachable

chosen :
    choose_version current_base reachable [] next_patch taken
    ≡ ok (record { major = 1; minor = 2; patch = 6 })
unfolding ◌=t◌ show read read_from is_numeral strip_prefix split_on is_base base_of tag_of precedes
    released releases_of latest bumped_version free_patch choose_version
chosen = refl

choose_version-IsFreeVersion_example :
    IsFreeVersion current_base taken (record { major = 1; minor = 2; patch = 6 })
choose_version-IsFreeVersion_example =
    choose_version-IsFreeVersion current_base reachable [] next_patch taken
      (record { major = 1; minor = 2; patch = 6 }) chosen

choose_version-next_patch_example :
    (v : Version) × (choose_version current_base reachable [] next_patch taken ≡ ok v)
    × IsFreeVersion current_base taken v
    × AllBefore v (releases_of reachable)
choose_version-next_patch_example = choose_version-next_patch current_base reachable taken

abbrev pull_request : Bool → Json
pull_request fork = obj (
    field (codes "isCrossRepository") (boolean fork) (
      field (codes "headRefName") (str (codes "release/version-1.2.6"))
        (field (codes "baseRefName") (str (codes "main")) end)))

abbrev own_request : Fields
own_request = field (codes "isCrossRepository") (boolean false) (
    field (codes "headRefName") (str (codes "release/version-1.2.6"))
      (field (codes "baseRefName") (str (codes "main")) end))

-- The request of a fork with the same names is passed over.
one_taken :
    own_pull_requests
      (arr (cons (pull_request true) (cons (pull_request false) nil)))
      (codes "release/version-1.2.6")
      (codes "main")
    ≡ ok (own_request ∷ [])
unfolding ◌=t◌ get own_row own_rows row_list own_pull_requests
one_taken = refl

own_pull_requests-IsOwn_example :
    All (IsOwn (codes "release/version-1.2.6") (codes "main")) (own_request ∷ []) × (1 ≤ 1)
own_pull_requests-IsOwn_example =
    own_pull_requests-IsOwn (arr (cons (pull_request true) (cons (pull_request false) nil)))
      (codes "release/version-1.2.6") (codes "main") (own_request ∷ []) one_taken
