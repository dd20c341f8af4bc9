-- ===== src/Manifest/Assets.antt =====
-- `_validate_manifest_assets` of scripts/release_control.py.
pub mod Inventory
use inverter_gateway.Prelude.{
  ℕ, Bool, true, false, not, Option, none, some, List, [], ◌∷◌, ◌&&◌, ◌||◌, if◌then◌else◌, Text,
  codes, ◌==◌, ◌=t◌, leb, all, length, is_digit,
}
use inverter_gateway.Prelude.Result.{Result, ok, err, require, ◌>>=◌, ◌>>◌}
use inverter_gateway.Json.{Json, Fields, int, str, arr, obj, get, to_list}
use inverter_gateway.Plan.Declaration.{one_of}
use inverter_gateway.Plan.Patterns.{is_sha256}

-- `MANIFEST`
abbrev pub manifest_name : Text
manifest_name = codes "release-manifest.json"

abbrev pub is_alphanumeric : ℕ → Bool
is_alphanumeric c = is_digit c || (leb b'A' c && leb c b'Z') || (leb b'a' c && leb c b'z')

-- `[A-Za-z0-9._+-]`
abbrev pub is_name_char : ℕ → Bool
is_name_char c = is_alphanumeric c || c == b'.' || c == b'_' || c == b'+' || c == b'-'

-- `NAME_RE`
unfoldable pub is_asset_name : Text → Bool
is_asset_name [] = false
is_asset_name (c ∷ s) = is_alphanumeric c && leb (length s) 199 && all is_name_char s

abbrev pub is_size : Option Json → Bool
is_size (some (int n)) = true
is_size _ = false

abbrev pub is_checksum : Option Json → Bool
is_checksum (some (str s)) = is_sha256 s
is_checksum _ = false

abbrev pub asset_list : Option Json → Result (List Json)
asset_list (some (arr items)) = do
  require (not (leb (length (to_list items)) 0)) "Manifest contains no assets"
  ok (to_list items)
asset_list _ = err "Manifest contains no assets"

module _ (casefold : Text → Text) where
  unfoldable pub safe_name : Option Json → Result Text
  safe_name (some (str name)) = do
    require (is_asset_name name && not (casefold name =t casefold manifest_name))
        "Unsafe manifest asset name"
    ok name
  safe_name _ = err "Unsafe manifest asset name"

  -- the loop over the assets, after the casefolded names that it has seen
  unfoldable pub check_assets : List Text → List Json → Result (Unit {0})
  check_assets names [] = ok tt
  check_assets names (obj asset ∷ items) = do
    name ← safe_name (get asset (codes "name"))
    require (not (one_of names (casefold name))) "Duplicate manifest asset name"
    require (is_size (get asset (codes "size"))) "Invalid manifest asset size"
    require (is_checksum (get asset (codes "sha256"))) "Invalid asset checksum"
    check_assets (casefold name ∷ names) items
  check_assets names (_ ∷ items) = err "Invalid manifest asset"

  -- `_validate_manifest_assets`
  unfoldable pub validate_manifest_assets : Fields → Result (Unit {0})
  validate_manifest_assets manifest = do
    items ← asset_list (get manifest (codes "assets"))
    check_assets [] items
