-- ===== src/Manifest/Snapshot.antt =====
-- `release_snapshot` of scripts/release_control.py, on what GitHub answers for the tag, the release and its assets.
use inverter_gateway.Prelude.{
  Bool, true, false, not, Option, some, List, [], ◌∷◌, ◌++◌, ◌&&◌, Text, codes, all, map,
}
use inverter_gateway.Prelude.Result.{Result, ok, require, ◌>>=◌, ◌>>◌}
use inverter_gateway.Json.{Json, Fields, boolean, str, obj, get}
use inverter_gateway.Json.Texts.{text_is}
use inverter_gateway.Validation.Policy.{all_distinct}
use inverter_gateway.Runs.Provenance.{positive}
use inverter_gateway.Manifest.Assets.{is_asset_name}
use inverter_gateway.Manifest.Policy.{policy_fields, text_with}

abbrev pub is_commit : Option Json → Bool
is_commit (some (obj target)) = text_is (get target (codes "type")) (codes "commit")
is_commit _ = false

-- `d.get(key) is value`
abbrev pub is_bool : Option Json → Bool → Bool
is_bool (some (boolean true)) b = b
is_bool (some (boolean false)) b = not b
is_bool _ b = false

abbrev pub asset_name : Fields → Option Json
asset_name asset = get asset (codes "name")

abbrev pub is_uploaded : Fields → Bool
is_uploaded asset = text_is (get asset (codes "state")) (codes "uploaded")

abbrev pub has_safe_name : Fields → Bool
has_safe_name asset = text_with is_asset_name (asset_name asset)

abbrev pub names_in : List Fields → List Text
names_in [] = []
names_in (asset ∷ assets) = elim (asset_name asset) [
  | some (str name) ↦ name ∷ names_in assets
  | _ ↦ names_in assets
]

-- `release_snapshot`
unfoldable pub release_snapshot :
    (Text → Text)
    → Text
    → Result Json
    → Result Json
    → Result (List Fields)
    → Result (Fields × Fields × List Fields)
release_snapshot casefold tag ref_answer release_answer asset_answer = do
  ref_value ← ref_answer
  ref ← policy_fields (some ref_value) "AttributeError"
  require
      (text_is (get ref (codes "ref")) (codes "refs/tags/" ++ tag)
        && is_commit (get ref (codes "object")))
      "Candidate must have a lightweight commit tag"
  release_value ← release_answer
  release ← policy_fields (some release_value) "AttributeError"
  require
      (text_is (get release (codes "tag_name")) tag
        && is_bool (get release (codes "draft")) false
        && is_bool (get release (codes "prerelease")) true)
      "Candidate is not a published prerelease"
  release_id ← positive (get release (codes "id")) "Invalid release ID"
  assets ← asset_answer
  require (all is_uploaded assets) "Candidate has incomplete uploads"
  require (all has_safe_name assets) "Unsafe release asset name"
  require (all_distinct (map casefold (names_in assets))) "Duplicate release assets"
  ok (ref, release, assets)
