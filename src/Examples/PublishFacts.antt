-- ===== src/Examples/PublishFacts.antt =====
-- A draft with two assets, and the theorems of Publish at it.
use inverter_gateway.Prelude.{
  ℕ, ◌≡◌, refl, true, false, Bool, List, [], ◌∷◌, ◌=t◌, Text, codes, String, any, if◌then◌else◌,
  ◌==◌,
}
use inverter_gateway.Prelude.Result.{Result, ok, err}
use inverter_gateway.Json.{Json, Fields, null, boolean, int, str, obj, end, field, get}
use inverter_gateway.Json.Equality.{py_eq}
use inverter_gateway.Plan.Patterns.{is_sha}
use inverter_gateway.Ledger.Sequence.{ensure_absent}
use inverter_gateway.Publish.Preflight.{check_workflow_publication}
use inverter_gateway.Publish.Run.{
  Call, create_ref, create_release, upload_asset, download_asset, read_ref, make_public,
  AssetIdentity, Server,
}
use inverter_gateway.Publish.Asset.{
  File, check_upload, draft_id, find_file, expected_file, asset_id, check_ref, check_result,
  payload_of,
}
use inverter_gateway.Publish.Transaction.{
  Release, upload_all, verify_uploaded_asset, verify_all, fill_and_publish, publish_prepared,
}
use inverter_gateway.Publish.Protocol.Refines.{Lands, Released, publish_prepared-Lands}
use inverter_gateway.Publish.Protocol.Checks.{IsComplete}
use inverter_gateway.Publish.Protocol.Verified.{is_public, publish_prepared-IsComplete}
use inverter_gateway.Examples.Values.{sample_sha}
use inverter_gateway.Examples.Ledgers.{sample_view}

-- Opening this opens the publication, so that it runs against a concrete server.
unfoldable publish_code : Unit {0}
unfolding ◌=t◌ get py_eq is_sha ensure_absent check_workflow_publication check_upload draft_id
    find_file expected_file asset_id check_ref check_result payload_of upload_all
    verify_uploaded_asset verify_all fill_and_publish publish_prepared
publish_code = tt

abbrev text_field : String → String → Fields → Fields
text_field key value rest = field (codes key) (str (codes value)) rest

abbrev same : Text → Text
same text = text

abbrev two_files : List File
two_files =
    (codes "a", record { size = 3; sha256 = codes "aa" })
    ∷ (codes "b", record { size = 4; sha256 = codes "bb" })
    ∷ []

abbrev asset_row : Text → ℕ → ℕ → Fields
asset_row name id size = field (codes "id") (int id) (
    field (codes "name") (str name)
      (text_field "state" "uploaded" (field (codes "size") (int size) end)))

abbrev release_row : Bool → Json
release_row draft = obj (
    field (codes "draft") (boolean draft) (
      text_field "tag_name" "v1"
        (field (codes "id") (int 5) (field (codes "prerelease") (boolean true) end))))

abbrev tag_row : Json
tag_row = obj (
    text_field "ref" "refs/tags/v1" (
      field (codes "object")
        (obj (text_field "type" "commit" (field (codes "sha") (str sample_sha) end))) end))

abbrev api_answer : List Call → Result Json
api_answer (create_ref tag sha ∷ h) = ok null
api_answer (create_release body ∷ h) = ok (release_row true)
api_answer (read_ref tag ∷ h) = ok tag_row
api_answer (make_public id prerelease ∷ h) = ok (release_row false)
api_answer _ = err "no answer"

abbrev upload_answer : List Call → Result (ℕ × Json)
upload_answer (upload_asset id name ∷ h) =
    if name =t codes "a"
    then ok (201, obj (asset_row name 11 3))
    else ok (201, obj (asset_row name 12 4))
upload_answer _ = err "no answer"

abbrev download_answer : List Call → Result AssetIdentity
download_answer (download_asset id ∷ h) =
    if id == 11
    then ok (record { size = 3; sha256 = codes "aa" })
    else ok (record { size = 4; sha256 = codes "bb" })
download_answer _ = err "no answer"

abbrev willing_server : Server
willing_server = record {
  api = api_answer;
  uploaded = upload_answer;
  pages = λ h. ok (asset_row (codes "b") 12 4 ∷ asset_row (codes "a") 11 3 ∷ []);
  bytes = download_answer;
}

abbrev two_asset_release : Release
two_asset_release = record {
  repo = codes "o/r";
  tag = codes "v1";
  sha = sample_sha;
  files = two_files;
  prerelease = true;
  body = codes "notes";
  view = sample_view;
  reads = record {
    scope_verified = true;
    info = err "not read";
    ref = err "not read";
    source_tree = err "not read";
    head_tree = err "not read";
    info_again = err "not read";
    ref_again = err "not read";
  };
}

two_assets_published :
    (publish_prepared willing_server same two_asset_release []).1
    ≡ ok (
        field (codes "draft") (boolean false) (
          text_field "tag_name" "v1"
            (field (codes "id") (int 5) (field (codes "prerelease") (boolean true) end))))
unfolding publish_code
two_assets_published = refl

publish_prepared-Lands_example :
    Lands willing_server two_asset_release
      (Released willing_server two_asset_release)
      (publish_prepared willing_server same two_asset_release [])
publish_prepared-Lands_example = publish_prepared-Lands willing_server two_asset_release same

asked_for_public :
    any is_public (publish_prepared willing_server same two_asset_release []).0 ≡ true
unfolding publish_code
asked_for_public = refl

publish_prepared-IsComplete_example :
    IsComplete willing_server two_asset_release
      (publish_prepared willing_server same two_asset_release []).0
publish_prepared-IsComplete_example =
    publish_prepared-IsComplete willing_server two_asset_release same asked_for_public
