-- ===== src/Staging.antt =====
-- `stage_assets` of scripts/release_control.py, which freezes the files of a candidate. An entry of the source
-- directory is what the file system tells of it; the entries are sorted, and no asset is restricted at this commit.
pub mod Accepted
pub mod Promoted
use inverter_gateway.Prelude.{
  ℕ, Bool, true, false, not, List, [], ◌∷◌, ◌&&◌, if◌then◌else◌, Text, codes, ◌=t◌,
}
use inverter_gateway.Prelude.Result.{Result, ok, err, require, ◌>>=◌, ◌>>◌}
use inverter_gateway.Json.{Json, int, str, obj, end, field}
use inverter_gateway.Plan.Declaration.{one_of}
use inverter_gateway.Manifest.Assets.{manifest_name, is_asset_name}
use inverter_gateway.Publish.Run.{AssetIdentity}

pub record SourceEntry : Type 0 where
  pub name : Text
  pub is_symlink : Bool
  pub is_file : Bool
  -- the descriptor is opened, and is that of a regular file
  pub is_regular : Bool
  -- the bytes are read and written to the staging directory
  pub is_copied : Bool
  pub identity : AssetIdentity

-- `{"name": entry.name, **identity}`
unfoldable pub staged_item : Text → AssetIdentity → Json
staged_item name identity = obj (
    field (codes "name") (str name)
      (field (codes "size") (int identity.size) (field (codes "sha256") (str identity.sha256) end)))

abbrev pub is_nonempty : List Json → Bool
is_nonempty [] = false
is_nonempty (item ∷ items) = true

module _ (casefold : Text → Text) where
  -- the loop over the entries, after the casefolded names that it has seen
  unfoldable pub stage_from : List Text → List SourceEntry → Result (List Json)
  stage_from folded_names [] = ok []
  stage_from folded_names (entry ∷ entries) = do
    require (not entry.is_symlink && entry.is_file) "Assets must be flat regular files"
    require (is_asset_name entry.name && not (casefold entry.name =t casefold manifest_name))
        "Unsafe or reserved asset name"
    require (not (one_of folded_names (casefold entry.name))) "Asset name collision"
    require entry.is_regular "Asset is not a regular file"
    require entry.is_copied "OSError"
    assets ← stage_from (casefold entry.name ∷ folded_names) entries
    ok (staged_item entry.name entry.identity ∷ assets)

  -- `stage_assets`, and whether the source is a directory and no link
  unfoldable pub stage_assets : Bool → List SourceEntry → Result (List Json)
  stage_assets is_directory entries = do
    require is_directory "Assets must be a regular directory"
    assets ← stage_from [] entries
    require (is_nonempty assets) "Cannot publish an empty assets directory"
    ok assets
