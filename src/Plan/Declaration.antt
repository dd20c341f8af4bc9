-- ===== src/Plan/Declaration.antt =====
-- `_field`, `_relative`, `_declaration`, `_artifact_declaration`, `_input_declaration` of
-- scripts/version_plan.py: the version declarations of a policy, decoded as they are checked.
-- A membership test on an unhashable JSON value raises TypeError in Python; here it fails the test.
use inverter_gateway.Prelude.{
  Bool, not, Option, none, some, List, [], ◌∷◌, ◌&&◌, if◌then◌else◌, Text, codes, ◌=t◌, any, all,
  is_empty, ◌==◌, String,
}
use inverter_gateway.Prelude.Result.{Result, ok, err, require, ◌>>=◌, ◌>>◌}
use inverter_gateway.Json.{Json, str, arr, to_list}
use inverter_gateway.Plan.Patterns.{split_on}

abbrev pub one_of : List Text → Text → Bool
one_of names s = any (λ n. n =t s) names

abbrev pub formats : List Text
formats =
    codes "json"
    ∷ codes "toml"
    ∷ codes "cargo-lock"
    ∷ codes "uv-lock"
    ∷ codes "npm-lock"
    ∷ codes "text"
    ∷ codes "python"
    ∷ codes "plist"
    ∷ codes "pbxproj"
    ∷ []

abbrev pub artifact_formats : List Text
artifact_formats =
    codes "oci"
    ∷ codes "json"
    ∷ codes "wheel"
    ∷ codes "sdist"
    ∷ codes "npm-tar"
    ∷ codes "ipa"
    ∷ codes "plist"
    ∷ codes "tar-text"
    ∷ codes "tar-toml"
    ∷ codes "tar-json"
    ∷ codes "zip-json"
    ∷ []

-- `value` of a declaration, one of VALUES
pub data Kind : Type 0 where
  base full packaged build apple_build : Kind

pub data Ecosystem : Type 0 where
  semver pep440 : Ecosystem

unfoldable pub kind_of : Text → Option Kind
unfolding ◌=t◌
kind_of s =
    if s =t codes "base"
    then some base
    else if s =t codes "full"
    then some full
    else if s =t codes "package"
    then some packaged
    else if s =t codes "build"
    then some build
    else if s =t codes "apple-build"
    then some apple_build
    else none

unfoldable pub ecosystem_of : Text → Option Ecosystem
unfolding ◌=t◌
ecosystem_of s =
    if s =t codes "semver" then some semver else if s =t codes "pep440" then some pep440 else none

pub record Declaration : Type 0 where
  pub path : Option Text
  pub format : Text
  pub selector : Option (List Text)
  pub owner : Option Text
  pub value : Kind
  pub prefix : Text
  pub ecosystem : Ecosystem
  pub member : Option Text

abbrev pub all_str : List Json → Option (List Text)
all_str [] = some []
all_str (str s ∷ xs) = elim (all_str xs) [ none ↦ none | some ss ↦ some (s ∷ ss) ]
all_str (_ ∷ xs) = none

abbrev pub segments : List Text → Result (List Text)
segments parts = do
  require (all (λ s. not (is_empty s)) parts)
      "Dotted fields cannot contain empty segments; use a string array"
  ok parts

abbrev pub nonempty : Option (List Text) → Result (List Text)
nonempty none = err "Field must be a dotted string or a nonempty string array"
nonempty (some []) = err "Field must be a dotted string or a nonempty string array"
nonempty (some (s ∷ ss)) = ok (s ∷ ss)

-- `_field`
unfoldable pub field_value : Json → Result (List Text)
unfolding split_on
field_value (str s) = segments (split_on b'.' s)
field_value (arr xs) = nonempty (all_str (to_list xs))
field_value _ = err "Field must be a dotted string or a nonempty string array"

abbrev pub unsafe_parts : List Text
unsafe_parts = [] ∷ codes "." ∷ codes ".." ∷ codes ".git" ∷ []

abbrev pub safe_text : Text → Bool
safe_text s = not (is_empty s) && all (λ c. not (c == 92) && not (c == 0)) s

-- `_relative`; an absolute path has an empty first part
unfoldable pub relative : Json → Result Text
unfolding split_on ◌=t◌
relative (str s) = do
  require (safe_text s) "Path must be a relative POSIX path"
  require (all (λ part. not (one_of unsafe_parts part)) (split_on b'/' s)) "Unsafe version path"
  ok s
relative _ = err "Path must be a relative POSIX path"

-- a check of a key that may be missing
abbrev pub optionally {ℓ} : {A : Type ℓ} → (Json → Result A) → Option Json → Result (Option A)
optionally f none = ok none
optionally f (some j) = do a ← f j; ok (some a)

abbrev pub no_breaks : Text → Bool
no_breaks = all (λ c. not (c == 13) && not (c == 10) && not (c == 0))

abbrev pub pick {ℓ} : {A : Type ℓ} → (Text → Option A) → String → Json → Result A
pick f message (str s) = elim (f s) [ none ↦ err message | some a ↦ ok a ]
pick f message _ = err message

abbrev pub member_name : List Text → Text → Option Text
member_name names s = if one_of names s then some s else none

abbrev pub or_default {ℓ} : {A : Type ℓ} → Option A → A → A
or_default none a = a
or_default (some a) b = a

abbrev pub prefix_value : Json → Result Text
prefix_value (str s) = do require (no_breaks s) "Invalid version prefix"; ok s
prefix_value _ = err "Invalid version prefix"

abbrev pub package_value : Json → Result Text
package_value (str s) = do
  require (not (is_empty s) && no_breaks s) "Invalid owned package selector"
  ok s
package_value _ = err "Invalid owned package selector"
