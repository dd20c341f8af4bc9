-- ===== src/Staging/Promoted.antt =====
-- The staging of a promotion, the loop of `promote` of scripts/release_control.py over the assets of the release: the
-- manifest is written as it was read, every other asset is downloaded again.
use inverter_gateway.Prelude.{
  ℕ, Bool, true, Option, none, some, List, [], ◌∷◌, ◌&&◌, ◌||◌, ◌≡◌, sym, ap, subst, ◌⊎◌, inl, inr,
  if◌then◌else◌, if_cases, Text, codes, ◌=t◌, =t→eq, All, any, all, &&-true,
}
use inverter_gateway.Prelude.Result.{
  Result, ok, err, require, ◌>>=◌, ◌>>◌, bind_ok, guard_ok, require_ok, ok-injective,
}
use inverter_gateway.Json.{Json, Fields, str, get}
use inverter_gateway.Json.Texts.{text_is, text_is-eq, number_is}
use inverter_gateway.Plan.Declaration.{one_of}
use inverter_gateway.Runs.Provenance.{positive}
use inverter_gateway.Manifest.Assets.{manifest_name}
use inverter_gateway.Manifest.Fuzz.{by_name, named, item_list}
use inverter_gateway.Publish.Run.{AssetIdentity}
use inverter_gateway.Publish.Asset.{File}

-- `item["name"]`, a text by `release_snapshot`
abbrev pub item_name : Option Json → Result Text
item_name (some (str name)) = ok name
item_name _ = err "KeyError"

abbrev pub item_names : List Fields → Result (List Text)
item_names [] = ok []
item_names (item ∷ items) = do
  name ← item_name (get item (codes "name"))
  rest ← item_names items
  ok (name ∷ rest)

-- `names == set(expected) | {MANIFEST}`
abbrev pub is_promotion_inventory : List Text → List (Json × Fields) → Bool
is_promotion_inventory names expected =
    all
      (λ name.
        name =t manifest_name || any (λ (e : Json × Fields). text_is (some e.0) name) expected)
      names
    && one_of names manifest_name
    && all (λ (e : Json × Fields). any (λ name. text_is (some e.0) name) names) expected

abbrev pub expected_asset : Option Fields → Result Fields
expected_asset none = err "KeyError"
expected_asset (some asset) = ok asset

abbrev pub is_recorded : Fields → AssetIdentity → Bool
is_recorded asset identity =
    number_is (get asset (codes "size")) identity.size
    && text_is (get asset (codes "sha256")) identity.sha256

module _ (raw_identity : AssetIdentity) (download : ℕ → Result AssetIdentity) where
  -- the bytes that are staged for an asset
  unfoldable pub staged_identity : Text → Fields → Result AssetIdentity
  staged_identity name asset =
      if name =t manifest_name
      then ok raw_identity
      else (do id ← positive (get asset (codes "id")) "Invalid asset ID"; download id)

  unfoldable pub check_recorded : List (Json × Fields) → Text → AssetIdentity → Result (Unit {0})
  check_recorded expected name identity = if name =t manifest_name then ok tt else (do
    asset ← expected_asset (named expected name)
    require (is_recorded asset identity) "Candidate checksum mismatch")

  -- the loop over the assets of the release
  unfoldable pub promote_assets : List (Json × Fields) → List Fields → Result (List File)
  promote_assets expected [] = ok []
  promote_assets expected (asset ∷ assets) = do
    name ← item_name (get asset (codes "name"))
    identity ← staged_identity name asset
    require (number_is (get asset (codes "size")) identity.size) "Release asset size mismatch"
    check_recorded expected name identity
    files ← promote_assets expected assets
    ok ((name, identity) ∷ files)

  -- the inventory and the loop, on the assets of the manifest and of the release
  unfoldable pub stage_promotion : Fields → List Fields → Result (List File)
  stage_promotion manifest assets = do
    items ← item_list (get manifest (codes "assets"))
    expected ← by_name [] items
    names ← item_names assets
    require (is_promotion_inventory names expected)
        "Candidate assets differ from manifest inventory"
    promote_assets expected assets

  -- The staged file is the manifest as it was read, or has the size and the digest that the manifest records for its name.
  abbrev pub IsPromoted : List (Json × Fields) → File → Type 0
  IsPromoted expected file =
      ((file.0 ≡ manifest_name) × (file.1 ≡ raw_identity))
      ⊎ ((asset : Fields) × (named expected file.0 ≡ some asset)
          × (number_is (get asset (codes "size")) file.1.size ≡ true)
          × (get asset (codes "sha256") ≡ some (str file.1.sha256)))

  expected_asset-some :
      (o : Option Fields) (asset : Fields) → expected_asset o ≡ ok asset → o ≡ some asset
  expected_asset-some (some a) asset h = ap some (ok-injective _ _ h)
  expected_asset-some none asset h = absurd (cc)

  recorded-IsPromoted :
      (expected : List (Json × Fields)) (name : Text) (asset : Fields) (identity : AssetIdentity)
      → staged_identity name asset ≡ ok identity
      → check_recorded expected name identity ≡ ok tt
      → IsPromoted expected (name, identity)
  unfolding staged_identity check_recorded
  recorded-IsPromoted expected name asset identity staged h =
      if_cases (name =t manifest_name) _ _ h
        (λ is_manifest _.
          if_cases (name =t manifest_name) _ _ staged
            (λ _ raw. inl (=t→eq _ _ is_manifest, sym (ok-injective _ _ raw)))
            (λ other _. absurd (cc)))
        (λ _ h1. bind_ok (expected_asset (named expected name)) _ h1 λ found known h2.
          let (size, hash) =
            &&-true (number_is (get found (codes "size")) identity.size) _ (require_ok _ _ h2) in
          inr (found, expected_asset-some _ found known, size, text_is-eq _ _ hash))

  promote_assets-IsPromoted :
      (expected : List (Json × Fields)) (assets : List Fields) (files : List File)
      → promote_assets expected assets ≡ ok files
      → All (IsPromoted expected) files
  unfolding promote_assets
  promote_assets-IsPromoted expected [] files h =
      subst (All (IsPromoted expected)) (ok-injective _ _ h) tt
  promote_assets-IsPromoted expected (asset ∷ assets) files h =
      bind_ok (item_name (get asset (codes "name"))) _ h λ name _ h1.
        bind_ok (staged_identity name asset) _ h1 λ identity staged h2.
          guard_ok (number_is (get asset (codes "size")) identity.size) _ _ h2 λ _ h3.
            bind_ok (check_recorded expected name identity) _ h3 λ _ recorded h4.
              bind_ok (promote_assets expected assets) _ h4 λ rest later h5.
                subst (All (IsPromoted expected)) (ok-injective _ _ h5) (
                  recorded-IsPromoted expected name asset identity staged recorded,
                  promote_assets-IsPromoted expected assets rest later,
                )

  -- Every file that a promotion stages is the manifest as it was read, or has the size and the SHA-256 that the manifest
  -- records for its name, and the names of the release's assets are those of the manifest and its own.
  pub stage_promotion-IsPromoted :
      (manifest : Fields) (assets : List Fields) (files : List File)
      → stage_promotion manifest assets ≡ ok files
      → (items : List Json) × (expected : List (Json × Fields)) × (names : List Text) × (item_list
            (get manifest (codes "assets"))
          ≡ ok items)
        × (by_name [] items ≡ ok expected)
        × (item_names assets ≡ ok names)
        × (is_promotion_inventory names expected ≡ true)
        × All (IsPromoted expected) files
  unfolding stage_promotion
  stage_promotion-IsPromoted manifest assets files h =
      bind_ok (item_list (get manifest (codes "assets"))) _ h λ items listed h1.
        bind_ok (by_name [] items) _ h1 λ expected keyed h2.
          bind_ok (item_names assets) _ h2 λ names called h3.
            guard_ok (is_promotion_inventory names expected) _ _ h3 λ same h4. (
              items,
              expected,
              names,
              listed,
              keyed,
              called,
              same,
              promote_assets-IsPromoted expected assets files h4,
            )
