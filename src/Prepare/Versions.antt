-- ===== src/Prepare/Versions.antt =====
-- Base versions of scripts/prepare_version.py: parsing, printing and the order of tuples.
use inverter_gateway.Prelude.{
  ℕ, Bool, Option, none, some, List, [], ◌∷◌, ◌++◌, ◌&&◌, ◌||◌, if◌then◌else◌, Text, codes, ◌==◌,
  ltb, show, read, strip_prefix,
}
use inverter_gateway.Plan.Patterns.{split_on, is_base}

pub record Version : Type 0 where
  pub major : ℕ
  pub minor : ℕ
  pub patch : ℕ

abbrev pub three_numbers : List Text → Option Version
three_numbers (a ∷ b ∷ c ∷ []) = some (record { major = read a; minor = read b; patch = read c })
three_numbers _ = none

-- `tuple(map(int, s.split(".")))`, where BASE matches
unfoldable pub base_of : Text → Option Version
base_of s = if is_base s then three_numbers (split_on b'.' s) else none

-- `"v" + f"{major}.{minor}.{patch}"`
unfoldable pub tag_of : Version → Text
tag_of v = codes "v" ++ (show v.major ++ b'.' ∷ (show v.minor ++ b'.' ∷ show v.patch))

-- `<` on tuples of three numbers
unfoldable pub precedes : Version → Version → Bool
precedes v w =
    ltb v.major w.major
    || (v.major == w.major && (ltb v.minor w.minor || (v.minor == w.minor && ltb v.patch w.patch)))

-- the version of a tag, if it is one of a stable release
unfoldable pub released : Text → Option Version
released tag = elim (strip_prefix (codes "v") tag) [ none ↦ none | some s ↦ base_of s ]

unfoldable pub releases_of : List Text → List Version
releases_of [] = []
releases_of (tag ∷ tags) = elim (released tag) [
  | none ↦ releases_of tags
  | some v ↦ v ∷ releases_of tags
]

abbrev pub later : Version → Option Version → Version
later v none = v
later v (some w) = if precedes v w then w else v

-- `max(values)`, where there are any
unfoldable pub latest : List Version → Option Version
latest [] = none
latest (v ∷ vs) = some (later v (latest vs))
