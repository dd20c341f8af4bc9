-- ===== src/Publish/Asset.antt =====
-- The checks on the answers that `_publish_prepared`, `upload` and `verify_uploaded_asset` of
-- scripts/release_control.py get.
use inverter_gateway.Prelude.{
  ℕ, Bool, true, false, Option, none, some, List, [], ◌∷◌, ◌++◌, ◌&&◌, if◌then◌else◌, Text, codes,
  ◌=t◌, ◌==◌, any, all, length,
}
use inverter_gateway.Prelude.Result.{Result, ok, err, require, ◌>>=◌, ◌>>◌}
use inverter_gateway.Json.{Json, Fields, boolean, int, str, obj, end, field, get}
use inverter_gateway.Json.Texts.{text_is, number_is}
use inverter_gateway.Runs.Provenance.{positive}
use inverter_gateway.Manifest.Policy.{policy_fields}
use inverter_gateway.Manifest.Snapshot.{is_bool}
use inverter_gateway.Publish.Run.{AssetIdentity}

-- A staged file: its name, and the identity of its bytes.
abbrev pub File : Type 0
File = Text × AssetIdentity

abbrev pub is_int : Option Json → ℕ → Bool
is_int (some (int n)) m = n == m
is_int _ m = false

-- the end of `upload`, from the response on
unfoldable pub check_upload : File → ℕ × Json → Result (Unit {0})
check_upload (name, identity) (status, response) = do
  require (status == 201) "upload was not confirmed as created"
  asset ← policy_fields (some response) "invalid asset response"
  asset_id ← positive (get asset (codes "id")) "Invalid uploaded asset ID"
  require
      (text_is (get asset (codes "name")) name
        && text_is (get asset (codes "state")) (codes "uploaded")
        && is_int (get asset (codes "size")) identity.size)
      "upload response did not confirm the staged asset"

-- the draft that the release's creation answers
unfoldable pub draft_id : Text → Json → Result ℕ
draft_id tag answer = do
  release ← policy_fields (some answer) "AttributeError"
  require
      (is_bool (get release (codes "draft")) true && text_is (get release (codes "tag_name")) tag)
      "Unexpected draft release response"
  positive (get release (codes "id")) "Invalid release ID"

-- `expected.get(name)`
unfoldable pub find_file : List File → Option Json → Option AssetIdentity
find_file [] name = none
find_file ((key, identity) ∷ files) name =
    let rest = find_file files name in if text_is name key then some identity else rest

abbrev pub is_found : Option AssetIdentity → Bool
is_found none = false
is_found (some identity) = true

-- as many items as files, and the same names
abbrev pub is_inventory : List File → List Fields → Bool
is_inventory files items =
    (length items == length files)
    && all (λ item. is_found (find_file files (get item (codes "name")))) items
    && all (λ (file : File). any (λ item. text_is (get item (codes "name")) file.0) items) files

unfoldable pub expected_file : List File → Fields → Result AssetIdentity
expected_file files item = elim (find_file files (get item (codes "name"))) [
  | none ↦ err "KeyError"
  | some identity ↦ ok identity
]

-- the asset ID, where the item is a complete upload of the file
unfoldable pub asset_id : AssetIdentity → Fields → Result ℕ
asset_id identity item = do
  require
      (text_is (get item (codes "state")) (codes "uploaded")
        && number_is (get item (codes "size")) identity.size)
      "Incomplete asset upload; draft left unpublished"
  positive (get item (codes "id")) "Invalid asset ID"

-- `remote == local`
abbrev pub same_identity : AssetIdentity → AssetIdentity → Bool
same_identity a b = a.size == b.size && a.sha256 =t b.sha256

abbrev pub is_commit_of : Option Json → Text → Bool
is_commit_of (some (obj target)) sha =
    text_is (get target (codes "type")) (codes "commit") && text_is (get target (codes "sha")) sha
is_commit_of _ sha = false

unfoldable pub check_ref : Text → Text → Json → Result (Unit {0})
check_ref tag sha answer = do
  ref ← policy_fields (some answer) "Tag moved before publication; draft left unpublished"
  require
      (text_is (get ref (codes "ref")) (codes "refs/tags/" ++ tag)
        && is_commit_of (get ref (codes "object")) sha)
      "Tag moved before publication; draft left unpublished"

unfoldable pub check_result : Text → Bool → Json → Result Fields
check_result tag prerelease answer = do
  result ← policy_fields (some answer) "AttributeError"
  require
      (is_bool (get result (codes "draft")) false
        && text_is (get result (codes "tag_name")) tag
        && is_bool (get result (codes "prerelease")) prerelease)
      "Publication response did not confirm the requested state"
  ok result

-- the body of the release's creation
unfoldable pub payload_of : Text → Text → Bool → Text → Fields
payload_of tag sha prerelease body = field (codes "tag_name") (str tag) (
    field (codes "target_commitish") (str sha) (
      field (codes "name") (str tag) (
        field (codes "body") (str body) (
          field (codes "draft") (boolean true) (
            field (codes "prerelease") (boolean prerelease)
              (field (codes "make_latest") (str (codes "false")) end))))))
