-- ===== src/Examples/StagingFacts.antt =====
-- Two files of a candidate and of its promotion, and the theorems of Staging at them.
use inverter_gateway.Prelude.{
  ℕ, ◌≡◌, refl, true, false, List, [], ◌∷◌, ◌==◌, ◌=t◌, if◌then◌else◌, Text, codes, All,
}
use inverter_gateway.Prelude.Result.{Result, ok}
use inverter_gateway.Json.{Json, Fields, int, str, arr, end, field, get}
use inverter_gateway.Json.Equality.{py_eq}
use inverter_gateway.Plan.Patterns.{is_sha256}
use inverter_gateway.Manifest.Assets.{manifest_name, is_asset_name, validate_manifest_assets}
use inverter_gateway.Manifest.Fuzz.{by_name, named, item_list}
use inverter_gateway.Publish.Run.{AssetIdentity}
use inverter_gateway.Publish.Asset.{File}
use inverter_gateway.Staging.{SourceEntry, staged_item, stage_from, stage_assets}
use inverter_gateway.Staging.Accepted.{items_of, validate_manifest_assets-stage_assets}
use inverter_gateway.Staging.Promoted.{
  item_names, is_promotion_inventory, staged_identity, check_recorded, promote_assets,
  stage_promotion, IsPromoted, stage_promotion-IsPromoted,
}
use inverter_gateway.Examples.Values.{sample_digest}

-- Opening this opens the staging, so that it runs on concrete files.
unfoldable staging_code : Unit {0}
unfolding ◌=t◌ get py_eq is_sha256 is_asset_name by_name named staged_item stage_from stage_assets
    staged_identity check_recorded promote_assets stage_promotion
staging_code = tt

abbrev same : Text → Text
same text = text

abbrev sized : ℕ → AssetIdentity
sized n = record { size = n; sha256 = sample_digest }

abbrev plain_file : Text → ℕ → SourceEntry
plain_file name n = record {
  name = name;
  is_symlink = false;
  is_file = true;
  is_regular = true;
  is_copied = true;
  identity = sized n;
}

abbrev two_entries : List SourceEntry
two_entries = plain_file (codes "a.tar.gz") 3 ∷ plain_file (codes "b.zip") 0 ∷ []

abbrev two_items : List Json
two_items = staged_item (codes "a.tar.gz") (sized 3) ∷ staged_item (codes "b.zip") (sized 0) ∷ []

abbrev assets_manifest : Fields
assets_manifest = field (codes "assets") (arr (items_of two_items)) end

validate_manifest_assets-stage_assets_example :
    validate_manifest_assets same assets_manifest ≡ ok tt
unfolding staging_code
validate_manifest_assets-stage_assets_example =
    validate_manifest_assets-stage_assets same true two_entries two_items assets_manifest
      (refl, (refl, tt)) refl refl

abbrev release_asset : Text → ℕ → ℕ → Fields
release_asset name id n =
    field (codes "name") (str name) (field (codes "id") (int id) (field (codes "size") (int n) end))

abbrev release_assets : List Fields
release_assets =
    release_asset (codes "b.zip") 2 0
    ∷ release_asset manifest_name 3 70
    ∷ release_asset (codes "a.tar.gz") 1 3
    ∷ []

abbrev stored_bytes : ℕ → Result AssetIdentity
stored_bytes id = if id == 1 then ok (sized 3) else ok (sized 0)

abbrev promoted_files : List File
promoted_files =
    (codes "b.zip", sized 0) ∷ (manifest_name, sized 70) ∷ (codes "a.tar.gz", sized 3) ∷ []

stage_promotion-IsPromoted_example :
    (items : List Json) × (expected : List (Json × Fields)) × (names : List Text) × (item_list
        (get assets_manifest (codes "assets"))
      ≡ ok items)
    × (by_name [] items ≡ ok expected)
    × (item_names release_assets ≡ ok names)
    × (is_promotion_inventory names expected ≡ true)
    × All (IsPromoted (sized 70) stored_bytes expected) promoted_files
unfolding staging_code
stage_promotion-IsPromoted_example =
    stage_promotion-IsPromoted (sized 70) stored_bytes assets_manifest release_assets promoted_files
      refl
