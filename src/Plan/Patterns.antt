-- ===== src/Plan/Patterns.antt =====
-- The regular expressions of scripts/version_plan.py (BASE, SHA, NIGHTLY and the SHA-256 pattern)
-- as tests on texts; `fullmatch` reads the whole text.
use inverter_gateway.Prelude.{
  ℕ, Bool, false, List, [], ◌∷◌, ◌&&◌, if◌then◌else◌, Text, ◌==◌, all, length, is_digit, is_hex,
  is_numeral, is_positive_numeral,
}

-- `c` goes in front of the first part.
abbrev pub onto_first : ℕ → List Text → List Text
onto_first c [] = (c ∷ []) ∷ []
onto_first c (part ∷ parts) = (c ∷ part) ∷ parts

-- `text.split(separator)`
unfoldable pub split_on : ℕ → Text → List Text
split_on d [] = [] ∷ []
split_on d (c ∷ s) = let rest = split_on d s in if c == d then [] ∷ rest else onto_first c rest

abbrev pub three_numerals : List Text → Bool
three_numerals (a ∷ b ∷ c ∷ []) = is_numeral a && is_numeral b && is_numeral c
three_numerals _ = false

-- BASE: X.Y.Z without leading zeros
unfoldable pub is_base : Text → Bool
unfolding split_on
is_base s = three_numerals (split_on b'.' s)

abbrev pub stamp_parts : List Text → Bool
stamp_parts (t ∷ run ∷ attempt ∷ []) =
    length t == 14 && all is_digit t && is_positive_numeral run && is_positive_numeral attempt
stamp_parts _ = false

-- NIGHTLY: a 14-digit time, the run and its attempt
unfoldable pub is_nightly : Text → Bool
unfolding split_on
is_nightly s = stamp_parts (split_on b'.' s)

-- SHA: 40 lowercase hexadecimal digits
unfoldable pub is_sha : Text → Bool
is_sha s = length s == 40 && all is_hex s

-- `[0-9a-f]{64}`
unfoldable pub is_sha256 : Text → Bool
is_sha256 s = length s == 64 && all is_hex s
