-- ===== src/Publish/Transaction.antt =====
-- `_publish_prepared` of scripts/release_control.py without its two optional callbacks, as `publish` and `candidate` call it. The
-- staged files are sorted by name; no asset is restricted and no signature is required at this commit.
use inverter_gateway.Prelude.{ℕ, Bool, List, [], ◌∷◌, Text}
use inverter_gateway.Prelude.Result.{ok, require}
use inverter_gateway.Json.{Fields}
use inverter_gateway.Ledger.Types.{View}
use inverter_gateway.Ledger.Sequence.{ensure_absent}
use inverter_gateway.Publish.Preflight.{Reads, check_workflow_publication}
use inverter_gateway.Publish.Run.{
  create_ref, create_release, upload_asset, list_assets, download_asset, read_ref, make_public,
  AssetIdentity, Server, Run, ◌>>=◌, ◌>>◌, local, call,
}
use inverter_gateway.Publish.Asset.{
  File, check_upload, draft_id, is_inventory, expected_file, asset_id, same_identity, check_ref,
  check_result, payload_of,
}

-- What is published, and what was read before the first write.
pub record Release : Type 0 where
  pub repo : Text
  pub tag : Text
  pub sha : Text
  pub files : List File
  pub prerelease : Bool
  pub body : Text
  pub view : View
  pub reads : Reads

module _ (server : Server) where
  -- the loop over the files
  unfoldable pub upload_all : ℕ → List File → Run (Unit {0})
  upload_all release_id [] = local (ok tt)
  upload_all release_id (file ∷ files) = do
    response ← call server.uploaded (upload_asset release_id file.0)
    local (check_upload file response)
    upload_all release_id files

  -- `verify_uploaded_asset`
  unfoldable pub verify_uploaded_asset : Fields → AssetIdentity → Run (Unit {0})
  verify_uploaded_asset item identity = do
    id ← local (asset_id identity item)
    remote ← call server.bytes (download_asset id)
    local (require (same_identity remote identity) "Uploaded bytes differ; draft left unpublished")

  -- the loop over the items
  unfoldable pub verify_all : List File → List Fields → Run (Unit {0})
  verify_all files [] = local (ok tt)
  verify_all files (item ∷ items) = do
    identity ← local (expected_file files item)
    verify_uploaded_asset item identity
    verify_all files items

  -- from the draft on
  unfoldable pub fill_and_publish : Release → ℕ → Run Fields
  fill_and_publish r release_id = do
    upload_all release_id r.files
    items ← call server.pages (list_assets release_id)
    local (
        require (is_inventory r.files items)
          "Uploaded asset inventory mismatch; draft left unpublished")
    verify_all r.files items
    ref ← call server.api (read_ref r.tag)
    local (check_ref r.tag r.sha ref)
    answer ← call server.api (make_public release_id r.prerelease)
    local (check_result r.tag r.prerelease answer)

  -- `_publish_prepared`
  unfoldable pub publish_prepared : (Text → Text) → Release → Run Fields
  publish_prepared lower r = do
    local (ensure_absent r.view r.tag)
    local (check_workflow_publication lower r.repo r.reads r.sha)
    made ← call server.api (create_ref r.tag r.sha)
    answer ← call server.api (create_release (payload_of r.tag r.sha r.prerelease r.body))
    release_id ← local (draft_id r.tag answer)
    fill_and_publish r release_id
