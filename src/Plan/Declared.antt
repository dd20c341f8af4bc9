-- ===== src/Plan/Declared.antt =====
-- `_artifact_declaration`, `_input_declaration` and `_declaration` of scripts/version_plan.py.
use inverter_gateway.Prelude.{
  Bool, not, Option, none, some, List, [], ◌∷◌, ◌&&◌, ◌||◌, if◌then◌else◌, Text, codes, ◌=t◌,
  String,
}
use inverter_gateway.Prelude.Result.{Result, ok, err, require, ◌>>=◌, ◌>>◌}
use inverter_gateway.Json.{Json, Fields, obj, get, has, only}
use inverter_gateway.Plan.Declaration.{
  Declaration, packaged, semver, kind_of, ecosystem_of, formats, artifact_formats, one_of,
  field_value, relative, optionally, pick, member_name, or_default, prefix_value, package_value,
}

-- `_artifact_declaration`
unfoldable pub artifact_declaration : Text → Fields → Result (Option Text)
unfolding get ◌=t◌ relative
artifact_declaration kind item = do
  require
      (not (kind =t codes "oci") || (has item (codes "field") && not (has item (codes "package"))))
      "OCI artifact requires an exact config field and no package selector"
  member ←
      if one_of (codes "tar-text" ∷ codes "tar-toml" ∷ codes "tar-json" ∷ codes "zip-json" ∷ [])
        kind
      then (do
        require (has item (codes "member")) "Archive field verification requires an exact member"
        optionally relative (get item (codes "member")))
      else (do
        require (not (has item (codes "member"))) "The format does not accept member"
        ok none)
  require
      (not (kind =t codes "tar-text")
        || (not (has item (codes "field")) && not (has item (codes "package"))))
      "Text artifact has no field or package selector"
  ok member

abbrev pub need : List Text → Text → Fields → Text → Bool
need kinds kind item key = not (one_of kinds kind) || has item key

abbrev pub refuse : List Text → Text → Fields → Text → Bool
refuse kinds kind item key = not (one_of kinds kind) || not (has item key)

-- `_input_declaration`
unfoldable pub input_declaration : Text → Fields → Result (Option Text)
unfolding get ◌=t◌
input_declaration kind item = do
  require
      (need (codes "json" ∷ codes "toml" ∷ codes "python" ∷ codes "plist" ∷ codes "pbxproj" ∷ [])
        kind item (codes "field"))
      "The format requires an explicit field"
  require
      (need (codes "cargo-lock" ∷ codes "uv-lock" ∷ codes "npm-lock" ∷ codes "pbxproj" ∷ []) kind
        item (codes "package"))
      "The format requires an explicit owned package selector"
  require
      (refuse (codes "text" ∷ codes "cargo-lock" ∷ codes "uv-lock" ∷ codes "npm-lock" ∷ []) kind
        item (codes "field"))
      "The format does not accept field"
  require (refuse (codes "text" ∷ codes "python" ∷ codes "plist" ∷ []) kind item (codes "package"))
      "The format does not accept package"
  ok none

abbrev pub declaration_keys : Bool → List Text
declaration_keys artifact =
    codes "path"
    ∷ codes "format"
    ∷ codes "field"
    ∷ codes "package"
    ∷ codes "value"
    ∷ codes "prefix"
    ∷ codes "ecosystem"
    ∷ (if artifact then codes "member" ∷ [] else [])

abbrev pub present : Option Json → String → Result Json
present none message = err message
present (some j) message = ok j

-- the body of `_declaration` once the item is an object
unfoldable pub declared : Bool → Fields → Result Declaration
declared artifact item = do
  require (only (declaration_keys artifact) item) "Unsupported version declaration fields"
  j ← present (get item (codes "format")) "Unsupported version format"
  format ←
      pick (member_name (if artifact then artifact_formats else formats))
        "Unsupported version format" j
  path ← optionally relative (get item (codes "path"))
  require (artifact || has item (codes "path")) "Version input requires path"
  kind ← optionally (pick kind_of "Unsupported version projection") (get item (codes "value"))
  ecosystem ←
      optionally (pick ecosystem_of "Unsupported package version ecosystem")
        (get item (codes "ecosystem"))
  prefix ← optionally prefix_value (get item (codes "prefix"))
  selector ← optionally field_value (get item (codes "field"))
  owner ← optionally package_value (get item (codes "package"))
  member ← if artifact then artifact_declaration format item else input_declaration format item
  ok (record {
    path = path;
    format = format;
    selector = selector;
    owner = owner;
    value = or_default kind packaged;
    prefix = or_default prefix [];
    ecosystem = or_default ecosystem semver;
    member = member;
  })

-- `_declaration`
unfoldable pub declaration : Bool → Json → Result Declaration
declaration artifact (obj item) = declared artifact item
declaration artifact _ = err "Version declarations must be objects"
