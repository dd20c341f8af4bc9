-- ===== src/Staging/Accepted.antt =====
-- What `stage_assets` of scripts/release_control.py puts into a manifest, `_validate_manifest_assets` accepts.
use inverter_gateway.Prelude.{
  ℕ, Bool, true, false, not, some, List, [], ◌∷◌, ◌&&◌, ◌≡◌, refl, sym, ap, subst, Text, codes,
  ◌=t◌, All, leb, length, suc, arith,
}
use inverter_gateway.Prelude.Result.{ok, bind_ok, guard_ok, ok-injective}
use inverter_gateway.Json.{Json, Items, Fields, nil, cons, arr, get, to_list}
use inverter_gateway.Plan.Declaration.{one_of}
use inverter_gateway.Plan.Patterns.{is_sha256}
use inverter_gateway.Manifest.Assets.{
  manifest_name, is_asset_name, asset_list, safe_name, check_assets, validate_manifest_assets,
}
use inverter_gateway.Staging.{SourceEntry, staged_item, is_nonempty, stage_from, stage_assets}

-- The list of a manifest.
abbrev pub items_of : List Json → Items
items_of [] = nil
items_of (item ∷ items) = cons item (items_of items)

to_list-items_of : (items : List Json) → to_list (items_of items) ≡ items
to_list-items_of [] = refl
to_list-items_of (item ∷ items) = ap (λ xs. item ∷ xs) (to_list-items_of items)

suc-leb : (n : ℕ) → leb (suc n) 0 ≡ false
suc-leb n = ground arith

nonempty_list :
    (items : List Json)
    → is_nonempty items ≡ true
    → asset_list (some (arr (items_of items))) ≡ ok items
nonempty_list [] h = absurd (cc)
nonempty_list (item ∷ items) h = rw (to_list-items_of items, suc-leb (length items)) refl

module _ (casefold : Text → Text) where
  stage_from_checked :
      (folded_names : List Text) (entries : List SourceEntry) (assets : List Json)
      → All (λ entry. is_sha256 entry.identity.sha256 ≡ true) entries
      → stage_from casefold folded_names entries ≡ ok assets
      → check_assets casefold folded_names assets ≡ ok tt
  unfolding stage_from check_assets staged_item safe_name get ◌=t◌
  stage_from_checked folded_names [] assets hex h =
      subst (λ xs. check_assets casefold folded_names xs ≡ ok tt) (ok-injective _ _ h) refl
  stage_from_checked folded_names (entry ∷ entries) assets (digits, hex) h =
      guard_ok (not entry.is_symlink && entry.is_file) _ _ h λ _ h1.
        guard_ok (is_asset_name entry.name && not (casefold entry.name =t casefold manifest_name)) _
          _ h1
          λ safe h2. guard_ok (not (one_of folded_names (casefold entry.name))) _ _ h2 λ unseen h3.
            guard_ok entry.is_regular _ _ h3 λ _ h4. guard_ok entry.is_copied _ _ h4 λ _ h5.
              bind_ok (stage_from casefold (casefold entry.name ∷ folded_names) entries) _ h5
                λ rest staged h6.
                  subst (λ xs. check_assets casefold folded_names xs ≡ ok tt) (ok-injective _ _ h6)
                    (rw (safe, unseen, digits)
                      (stage_from_checked (casefold entry.name ∷ folded_names) entries rest hex
                        staged))

  -- A manifest whose assets are those that stage_assets returned passes _validate_manifest_assets, where the digests of the
  -- files are 64 lowercase hexadecimal digits.
  pub validate_manifest_assets-stage_assets :
      (is_directory : Bool) (entries : List SourceEntry) (assets : List Json) (manifest : Fields)
      → All (λ entry. is_sha256 entry.identity.sha256 ≡ true) entries
      → stage_assets casefold is_directory entries ≡ ok assets
      → get manifest (codes "assets") ≡ some (arr (items_of assets))
      → validate_manifest_assets casefold manifest ≡ ok tt
  unfolding stage_assets validate_manifest_assets
  validate_manifest_assets-stage_assets is_directory entries assets manifest hex h held =
      guard_ok is_directory _ _ h λ _ h1.
        bind_ok (stage_from casefold [] entries) _ h1 λ staged loop h2.
          guard_ok (is_nonempty staged) _ _ h2 λ some_asset same.
            let listed =
              subst (λ xs. get manifest (codes "assets") ≡ some (arr (items_of xs)))
                (sym (ok-injective _ _ same)) held in
            rw (listed, nonempty_list staged some_asset)
              (stage_from_checked [] entries staged hex loop)
