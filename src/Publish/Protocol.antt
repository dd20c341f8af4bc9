-- ===== src/Publish/Protocol.antt =====
-- The protocol of a publication, as a state machine: which call each phase allows, and what has to be answered for the
-- next phase. `_publish_prepared` of scripts/release_control.py is compared with it.
pub mod Checks
pub mod Refines
pub mod Verified
use inverter_gateway.Prelude.{ℕ, Bool, true, List, [], ◌∷◌, ◌≡◌, some, Text, codes}
use inverter_gateway.Prelude.Result.{Result, ok}
use inverter_gateway.Json.{Json, Fields, get}
use inverter_gateway.Publish.Run.{
  Call, create_ref, create_release, upload_asset, list_assets, download_asset, read_ref,
  make_public, AssetIdentity, Server,
}
use inverter_gateway.Publish.Asset.{
  File, check_upload, draft_id, is_inventory, find_file, asset_id, same_identity, check_ref,
  payload_of,
}
use inverter_gateway.Publish.Transaction.{Release}

-- How far a publication is: the files that are left to upload, the items that are left to verify. A publication that
-- has stopped makes no further call.
pub data Phase : Type 0 where
  idle : Phase
  tagged : Phase
  filling : ℕ → List File → Phase
  verifying : ℕ → List Fields → List Fields → Phase
  confirmed : ℕ → List Fields → Phase
  released : ℕ → Phase
  stopped : Phase

module _ (server : Server) (r : Release) where
  -- The call that a phase allows.
  pub data Allowed : Phase → Call → Type 0 where
    tag_first : Allowed idle (create_ref r.tag r.sha)
    then_draft : Allowed tagged (create_release (payload_of r.tag r.sha r.prerelease r.body))
    then_upload :
        (id : ℕ) (file : File) (files : List File)
        → Allowed (filling id (file ∷ files)) (upload_asset id file.0)
    then_list : (id : ℕ) → Allowed (filling id []) (list_assets id)
    then_download :
        (id asset : ℕ) (listed items : List Fields) (item : Fields) (identity : AssetIdentity)
        → find_file r.files (get item (codes "name")) ≡ some identity
        → asset_id identity item ≡ ok asset
        → Allowed (verifying id listed (item ∷ items)) (download_asset asset)
    then_read : (id : ℕ) (listed : List Fields) → Allowed (verifying id listed []) (read_ref r.tag)
    then_release :
        (id : ℕ) (listed : List Fields)
        → Allowed (confirmed id listed) (make_public id r.prerelease)

  -- An item whose upload is complete and whose bytes, downloaded after some calls, are those of the staged file of
  -- its name.
  abbrev pub IsVerified : List Call → Fields → Type 0
  IsVerified h item =
      (identity : AssetIdentity) × (asset : ℕ) × (remote : AssetIdentity) × (find_file r.files
          (get item (codes "name"))
        ≡ some identity)
      × (asset_id identity item ≡ ok asset)
      × (server.bytes (download_asset asset ∷ h) ≡ ok remote)
      × (same_identity remote identity ≡ true)

  -- The tag, read after some calls, is the commit of the release.
  abbrev pub IsTagged : List Call → Type 0
  IsTagged h =
      (ref : Json) × (server.api (read_ref r.tag ∷ h) ≡ ok ref)
      × (check_ref r.tag r.sha ref ≡ ok tt)

  -- What the answer to the call after some others has to be for the next phase.
  pub data Step : List Call → Phase → Phase → Type 0 where
    to_tagged :
        (h : List Call) (answer : Json)
        → server.api (create_ref r.tag r.sha ∷ h) ≡ ok answer
        → Step h idle tagged
    to_filling :
        (h : List Call) (id : ℕ) (answer : Json)
        → server.api (create_release (payload_of r.tag r.sha r.prerelease r.body) ∷ h) ≡ ok answer
        → draft_id r.tag answer ≡ ok id
        → Step h tagged (filling id r.files)
    to_next :
        (h : List Call) (id : ℕ) (file : File) (files : List File) (response : ℕ × Json)
        → server.uploaded (upload_asset id file.0 ∷ h) ≡ ok response
        → check_upload file response ≡ ok tt
        → Step h (filling id (file ∷ files)) (filling id files)
    to_verifying :
        (h : List Call) (id : ℕ) (listed : List Fields)
        → server.pages (list_assets id ∷ h) ≡ ok listed
        → is_inventory r.files listed ≡ true
        → Step h (filling id []) (verifying id listed listed)
    to_item :
        (h : List Call) (id : ℕ) (listed items : List Fields) (item : Fields)
        → IsVerified h item
        → Step h (verifying id listed (item ∷ items)) (verifying id listed items)
    to_confirmed :
        (h : List Call) (id : ℕ) (listed : List Fields)
        → IsTagged h
        → Step h (verifying id listed []) (confirmed id listed)
    to_released :
        (h : List Call) (id : ℕ) (listed : List Fields) → Step h (confirmed id listed) (released id)

  -- The calls, the newest first, that lead to a phase.
  pub data Reaches : List Call → Phase → Type 0 where
    begin : Reaches [] idle
    advance :
        {h : List Call} {p q : Phase} (c : Call)
        → Reaches h p
        → Allowed p c
        → Step h p q
        → Reaches (c ∷ h) q
    give_up :
        {h : List Call} {p : Phase} (c : Call) → Reaches h p → Allowed p c → Reaches (c ∷ h) stopped
