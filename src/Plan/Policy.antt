-- ===== src/Plan/Policy.antt =====
-- `validate_policy` of scripts/version_plan.py.
use inverter_gateway.Prelude.{
  ℕ, Bool, true, false, not, Option, none, some, List, [], ◌∷◌, ◌&&◌, ltb, if◌then◌else◌, Text,
  codes, ◌=t◌, any, ◌==◌, length,
}
use inverter_gateway.Prelude.Result.{Result, ok, err, require, ◌>>=◌, ◌>>◌}
use inverter_gateway.Json.{Json, Fields, str, arr, obj, int, to_list, get, only}
use inverter_gateway.Plan.Patterns.{is_sha}
use inverter_gateway.Plan.Declaration.{Declaration, optionally, pick, or_default}
use inverter_gateway.Plan.Declared.{declaration, present}
use inverter_gateway.Plan.Receipts.{required_build_receipts}

pub data Promotion : Type 0 where
  promote_bytes final_build : Promotion

unfoldable pub promotion_of : Text → Option Promotion
unfolding ◌=t◌
promotion_of s =
    if s =t codes "promote-bytes"
    then some promote_bytes
    else if s =t codes "final-build"
    then some final_build
    else none

unfoldable pub same_promotion : Promotion → Promotion → Bool
same_promotion promote_bytes promote_bytes = true
same_promotion final_build final_build = true
same_promotion _ _ = false

-- The validated `versioning` object.
pub record Config : Type 0 where
  pub promotion : Promotion
  pub floor : ℕ
  pub files : List Declaration
  pub artifacts : List Declaration
  pub receipts : Option (List Text)
  pub toolkit_revision : Option Text

abbrev pub config_keys : List Text
config_keys =
    codes "schema"
    ∷ codes "promotion"
    ∷ codes "files"
    ∷ codes "artifacts"
    ∷ codes "required_build_receipts"
    ∷ codes "build_number_floor"
    ∷ codes "toolkit_revision"
    ∷ []

abbrev pub schema_one : Option Json → Bool
schema_one (some (int n)) = n == 1
schema_one _ = false

abbrev pub floor_value : Json → Result ℕ
floor_value (int n) = do
  require (ltb n 2_100_000_000) "Native build number floor must be an integer in 0..2099999999"
  ok n
floor_value _ = err "Native build number floor must be an integer in 0..2099999999"

abbrev pub same_text : Option Text → Option Text → Bool
same_text none none = true
same_text (some a) (some b) = a =t b
same_text _ _ = false

abbrev pub same_texts : List Text → List Text → Bool
same_texts [] [] = true
same_texts (a ∷ as') (b ∷ bs) = a =t b && same_texts as' bs
same_texts _ _ = false

-- the selector tuples (path, format, field, package) of two declarations
unfoldable pub same_selector : Declaration → Declaration → Bool
unfolding ◌=t◌
same_selector a b =
    same_text a.path b.path
    && a.format =t b.format
    && same_texts (or_default a.selector []) (or_default b.selector [])
    && same_text a.owner b.owner

-- the loop over `files`, with the selectors seen so far
unfoldable pub file_declarations : List Declaration → List Json → Result (List Declaration)
file_declarations seen [] = ok []
file_declarations seen (j ∷ js) = do
  item ← declaration false j
  require (not (any (same_selector item) seen)) "Duplicate version selector"
  rest ← file_declarations (item ∷ seen) js
  ok (item ∷ rest)

unfoldable pub artifact_declarations : List Json → Result (List Declaration)
artifact_declarations [] = ok []
artifact_declarations (j ∷ js) = do
  item ← declaration true j
  rest ← artifact_declarations js
  ok (item ∷ rest)

abbrev pub nonempty_list : Option Json → Result (List Json)
nonempty_list (some (arr xs)) = do
  require (not (length (to_list xs) == 0)) "Policy requires explicit version files"
  ok (to_list xs)
nonempty_list _ = err "Policy requires explicit version files"

abbrev pub artifact_list : Option Json → Result (List Json)
artifact_list none = ok []
artifact_list (some (arr xs)) = ok (to_list xs)
artifact_list _ = err "Artifact declarations must be an array"

abbrev pub revision : Json → Result Text
revision (str s) = do require (is_sha s) "Toolkit revision must be a pinned SHA"; ok s
revision _ = err "Toolkit revision must be a pinned SHA"

unfoldable pub versioning : Fields → Result Config
versioning config = do
  require (only config_keys config) "Unsupported versioning fields"
  require (schema_one (get config (codes "schema"))) "Unsupported versioning schema"
  j ← present (get config (codes "promotion")) "Unsupported promotion profile"
  promotion ← pick promotion_of "Unsupported promotion profile" j
  floor ← optionally floor_value (get config (codes "build_number_floor"))
  items ← nonempty_list (get config (codes "files"))
  receipts ← required_build_receipts config
  files ← file_declarations [] items
  built ← artifact_list (get config (codes "artifacts"))
  artifacts ← artifact_declarations built
  toolkit ← optionally revision (get config (codes "toolkit_revision"))
  ok (record {
    promotion = promotion;
    floor = or_default floor 0;
    files = files;
    artifacts = artifacts;
    receipts = receipts;
    toolkit_revision = toolkit;
  })

abbrev pub versioning_field : Option Json → Result Config
versioning_field (some (obj config)) = versioning config
versioning_field _ = err "Policy requires versioning"

-- `validate_policy`
unfoldable pub validate_policy : Json → Result Config
validate_policy (obj policy) = versioning_field (get policy (codes "versioning"))
validate_policy _ = err "Policy must be an object"
