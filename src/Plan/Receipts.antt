-- ===== src/Plan/Receipts.antt =====
-- `required_build_receipts` of scripts/version_plan.py.
use inverter_gateway.Prelude.{
  ℕ, Bool, true, false, not, Option, none, some, List, [], ◌∷◌, ◌&&◌, ◌||◌, if◌then◌else◌, Text,
  codes, ◌=t◌, any, all, strip_prefix, is_empty, leb, ◌==◌, is_digit, length,
}
use inverter_gateway.Prelude.Result.{Result, ok, err, require, ◌>>=◌, ◌>>◌}
use inverter_gateway.Json.{Fields, arr, to_list, get}
use inverter_gateway.Plan.Declaration.{all_str}

-- `text[: -len(suffix)]` if the text ends with the suffix
unfoldable pub strip_suffix : Text → Text → Option Text
unfolding ◌=t◌
strip_suffix suffix [] = if [] =t suffix then some [] else none
strip_suffix suffix (c ∷ s) =
    let rest = strip_suffix suffix s in
    if (c ∷ s) =t suffix then some [] else elim rest [ none ↦ none | some r ↦ some (c ∷ r) ]

abbrev pub is_name_char : ℕ → Bool
is_name_char c =
    is_digit c
    || (leb b'A' c && leb c b'Z')
    || (leb b'a' c && leb c b'z')
    || c == b'.'
    || c == b'_'
    || c == b'-'

abbrev pub stem_of : Option Text → Bool
stem_of none = false
stem_of (some s) = not (is_empty s) && all is_name_char s

abbrev pub after_prefix : Option Text → Bool
after_prefix none = false
after_prefix (some s) = stem_of (strip_suffix (codes ".json") s)

-- `release-inputs-[A-Za-z0-9._-]+\.json`
unfoldable pub is_receipt_name : Text → Bool
unfolding strip_suffix strip_prefix
is_receipt_name s = after_prefix (strip_prefix (codes "release-inputs-") s)

abbrev pub distinct : List Text → Bool
distinct [] = true
distinct (s ∷ ss) = not (any (λ t. s =t t) ss) && distinct ss

abbrev pub receipt_names : Option (List Text) → Result (List Text)
receipt_names none = err "required_build_receipts must be nonempty ASCII package receipt filenames"
receipt_names (some names) = do
  require
      (not (length names == 0)
        && all (λ s. is_receipt_name s && not (s =t codes "release-inputs-fuzz.json")) names)
      "required_build_receipts must be nonempty ASCII package receipt filenames"
  require (distinct names) "required_build_receipts contains duplicate filenames"
  ok names

-- `required_build_receipts`
unfoldable pub required_build_receipts : Fields → Result (Option (List Text))
unfolding get is_receipt_name ◌=t◌
required_build_receipts config = elim (get config (codes "required_build_receipts")) [
  | none ↦ ok none
  | some j ↦ do
    names ← elim j [
      | arr xs ↦ receipt_names (all_str (to_list xs))
      | _ ↦ err "required_build_receipts must be nonempty ASCII package receipt filenames"
    ]
    ok (some names)
]
