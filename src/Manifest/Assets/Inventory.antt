-- ===== src/Manifest/Assets/Inventory.antt =====
-- What `_validate_manifest_assets` of scripts/release_control.py accepts, said without its loop.
use inverter_gateway.Prelude.{
  not-true, ℕ, true, false, not, Option, none, some, List, [], ◌∷◌, ◌&&◌, ◌≡◌, ◌≢◌, ◌↔◌, refl, sym,
  ap, ◌∙◌, subst, inl, inr, Text, codes, ◌=t◌, =t-self, =t→eq, All, Bool-cases, &&-true, arith, map,
}
use inverter_gateway.Prelude.Result.{ok, bind_ok, guard_ok, ok-injective}
use inverter_gateway.Json.{Json, Fields, null, int, str, obj, get}
use inverter_gateway.Plan.Declaration.{one_of}
use inverter_gateway.Plan.Patterns.{is_sha256}
use inverter_gateway.Manifest.Assets.{
  manifest_name, is_asset_name, is_size, is_checksum, asset_list, safe_name, check_assets,
  validate_manifest_assets,
}

-- No text occurs twice.
abbrev pub Distinct : List Text → Type 0
Distinct [] = Unit
Distinct (x ∷ xs) = All (λ y. x ≢ y) xs × Distinct xs

=t-differs : (x y : Text) → (x =t y) ≡ false → x ≢ y
=t-differs x y h same = let equal = subst (λ z. (x =t z) ≡ true) same (=t-self x) in absurd (cc)

differs-=t : (x y : Text) → x ≢ y → (x =t y) ≡ false
differs-=t x y h = elim (Bool-cases (x =t y)) [
  | inl same ↦ absurd (h (=t→eq x y same))
  | inr other ↦ other
]

-- None of the texts is among the names.
abbrev Fresh : List Text → List Text → Type 0
Fresh names = All (λ n. one_of names n ≡ false)

Fresh-cons :
    (x : Text) (names ns : List Text) → Fresh (x ∷ names) ns → All (λ n. x ≢ n) ns × Fresh names ns
Fresh-cons x names [] h = (tt, tt)
Fresh-cons x names (n ∷ ns) (h, hs) =
    let (differ, fresh) = Fresh-cons x names ns hs in
    let first : (x =t n) ≡ false = ground (arith, h) in
    let second : one_of names n ≡ false = ground (arith, h) in
    ((=t-differs x n first, differ), (second, fresh))

cons-Fresh :
    (x : Text) (names ns : List Text) → All (λ n. x ≢ n) ns → Fresh names ns → Fresh (x ∷ names) ns
cons-Fresh x names [] differ fresh = tt
cons-Fresh x names (n ∷ ns) (d, differ) (f, fresh) =
    (rw (differs-=t x n d) f, cons-Fresh x names ns differ fresh)

Fresh-nil : (ns : List Text) → Fresh [] ns
Fresh-nil [] = tt
Fresh-nil (n ∷ ns) = (refl, Fresh-nil ns)

is_size_int : (o : Option Json) → is_size o ≡ true → (n : ℕ) × (o ≡ some (int n))
is_size_int (some (int n)) h = (n, refl)
is_size_int none h = absurd (cc)
is_size_int (some _) h = absurd (cc)

is_checksum_str :
    (o : Option Json)
    → is_checksum o ≡ true
    → (s : Text) × (o ≡ some (str s)) × (is_sha256 s ≡ true)
is_checksum_str (some (str s)) h = (s, refl, h)
is_checksum_str none h = absurd (cc)
is_checksum_str (some _) h = absurd (cc)

module _ (casefold : Text → Text) where
  -- An asset with a safe name, a size and a checksum.
  abbrev pub IsAsset : Json → Type 0
  IsAsset item =
      (asset : Fields) × (item ≡ obj asset)
      × ((name : Text) × (get asset (codes "name") ≡ some (str name))
          × (is_asset_name name ≡ true)
          × (casefold name ≢ casefold manifest_name))
      × ((size : ℕ) × (get asset (codes "size") ≡ some (int size)))
      × ((sum : Text) × (get asset (codes "sha256") ≡ some (str sum)) × (is_sha256 sum ≡ true))

  abbrev pub folded_name : Option Json → Text
  folded_name (some (str name)) = casefold name
  folded_name _ = []

  abbrev pub folded : Json → Text
  folded (obj asset) = folded_name (get asset (codes "name"))
  folded _ = []

  -- A nonempty list of assets whose casefolded names differ.
  abbrev pub IsInventory : Fields → Type 0
  IsInventory manifest =
      (items : List Json) × (asset_list (get manifest (codes "assets")) ≡ ok items)
      × All IsAsset items
      × Distinct (map folded items)

  safe_name_ok :
      (o : Option Json) (name : Text)
      → safe_name casefold o ≡ ok name
      → (o ≡ some (str name))
        × (is_asset_name name ≡ true)
        × (casefold name ≢ casefold manifest_name)
  unfolding safe_name
  safe_name_ok (some (str s)) name h =
      guard_ok (is_asset_name s && not (casefold s =t casefold manifest_name)) _ _ h λ t same.
        let (safe, other) = &&-true (is_asset_name s) _ t in
        subst
          (λ n.
            (some (str s) ≡ some (str n))
            × (is_asset_name n ≡ true)
            × (casefold n ≢ casefold manifest_name))
          (ok-injective _ _ same) (refl, safe, =t-differs _ _ (not-true _ other))
  safe_name_ok none name h = absurd (cc)
  safe_name_ok (some _) name h = absurd (cc)

  abbrev AllChecked : List Text → List Json → Type 0
  AllChecked names items =
      All IsAsset items × Distinct (map folded items) × Fresh names (map folded items)

  check_assets_sound :
      (names : List Text) (items : List Json)
      → check_assets casefold names items ≡ ok tt
      → AllChecked names items
  unfolding check_assets
  check_assets_sound names [] h = (tt, tt, tt)
  check_assets_sound names (obj asset ∷ items) h =
      bind_ok (safe_name casefold (get asset (codes "name"))) _ h λ name named h1.
        guard_ok (not (one_of names (casefold name))) _ _ h1 λ unseen h2.
          guard_ok (is_size (get asset (codes "size"))) _ _ h2 λ sized h3.
            guard_ok (is_checksum (get asset (codes "sha256"))) _ _ h3 λ summed h4.
              let (found, safe, other) = safe_name_ok (get asset (codes "name")) name named in
              let (assets, distinct, fresh) = check_assets_sound (casefold name ∷ names) items h4 in
              let (differ, others) = Fresh-cons (casefold name) names (map folded items) fresh in
              (
                (
                  (
                    asset,
                    refl,
                    (name, found, safe, other),
                    is_size_int _ sized,
                    is_checksum_str _ summed,
                  ),
                  assets,
                ),
                subst (λ t. Distinct (t ∷ map folded items)) (sym (ap folded_name found))
                    (differ, distinct),
                subst (λ t. Fresh names (t ∷ map folded items)) (sym (ap folded_name found))
                    (not-true _ unseen, others),
              )
  check_assets_sound names (null ∷ items) h = absurd (cc)
  check_assets_sound names (_ ∷ items) h = absurd (cc)

  safe_name-known :
      (o : Option Json) (name : Text)
      → o ≡ some (str name)
      → is_asset_name name ≡ true
      → casefold name ≢ casefold manifest_name
      → safe_name casefold o ≡ ok name
  unfolding safe_name
  safe_name-known o name found safe other =
      rw (found, safe, differs-=t (casefold name) (casefold manifest_name) other) refl

  check_assets_complete :
      (names : List Text) (items : List Json)
      → AllChecked names items
      → check_assets casefold names items ≡ ok tt
  unfolding check_assets
  check_assets_complete names [] h = refl
  check_assets_complete names (item ∷ items)
        (
          ((asset, same, (name, named, safe, other), (size, sized), (sum, summed, digits)), assets),
          (differ, distinct),
          (unseen, fresh),
        ) =
      let fold : folded item ≡ casefold name = ap folded same ∙ ap folded_name named in
      let unseen_name : one_of names (casefold name) ≡ false =
        subst (λ t. one_of names t ≡ false) fold unseen in
      let differ_name = subst (λ t. All (λ y. t ≢ y) (map folded items)) fold differ in
      rw
        (
          same,
          safe_name-known (get asset (codes "name")) name named safe other,
          unseen_name,
          sized,
          summed,
          digits,
        )
        (check_assets_complete (casefold name ∷ names) items
          (assets, distinct, cons-Fresh (casefold name) names (map folded items) differ_name fresh))

  -- _validate_manifest_assets accepts a manifest exactly when its assets are a nonempty list of dictionaries, each with a safe name
  -- that is not the manifest's own, a size that is an integer from 0 on and a SHA-256 checksum, whose casefolded names all differ.
  pub validate_manifest_assets-IsInventory :
      (manifest : Fields)
      → (validate_manifest_assets casefold manifest ≡ ok tt) ↔ IsInventory manifest
  unfolding validate_manifest_assets
  validate_manifest_assets-IsInventory manifest = (
    (λ h. bind_ok (asset_list (get manifest (codes "assets"))) _ h λ items listed h1.
        let (assets, distinct, fresh) = check_assets_sound [] items h1 in
        (items, listed, assets, distinct)),
    (λ (items, listed, assets, distinct).
        rw (listed)
          (check_assets_complete [] items (assets, distinct, Fresh-nil (map folded items)))),
  )
