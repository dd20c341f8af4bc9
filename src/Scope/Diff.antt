-- ===== src/Scope/Diff.antt =====
-- `classify_record` and `classify_diff` of scripts/change_scope.py, on the bytes of `git diff --raw -z`.
-- Decoding a path is the standard library's: `utf8` gives the text, or `none` for a ValueError.
use inverter_gateway.Prelude.{
  ℕ, ◌*◌, Bool, true, false, not, Option, none, some, List, [], ◌∷◌, ◌&&◌, ◌||◌, if◌then◌else◌,
  Text, codes, ◌=t◌, ◌==◌, ltb, leb, all, is_empty, length, String,
}
use inverter_gateway.Prelude.Result.{Result, ok, err}
use inverter_gateway.Plan.Patterns.{split_on, is_sha}
use inverter_gateway.Plan.Declaration.{one_of}
use inverter_gateway.Scope.Paths.{documentation_path}

-- `decision(run, reason)`
pub record Decision : Type 0 where
  pub run : Bool
  pub reason : String

abbrev pub full : String → Decision
full reason = record { run = true; reason = reason }

abbrev pub skip : Decision
skip = record { run = false; reason = "documentation-only" }

-- `bytes.split()`: the runs of bytes that are no white space
abbrev pub is_space : ℕ → Bool
is_space c = c == 32 || (leb 9 c && leb c 13)

-- a byte in front of the words; `inside` says that the next byte belongs to the first word
abbrev pub grow : ℕ → Bool → List Text → List Text
grow c true (word ∷ words) = (c ∷ word) ∷ words
grow c true [] = (c ∷ []) ∷ []
grow c false words = (c ∷ []) ∷ words

abbrev pub starts_word : Text → Bool
starts_word [] = false
starts_word (c ∷ s) = not (is_space c)

unfoldable pub words_of : Text → List Text
words_of [] = []
words_of (c ∷ s) = let rest = words_of s in if is_space c then rest else grow c (starts_word s) rest

unfoldable pub expected_modes : Text → Text → Text → Bool
expected_modes status before after =
    (status =t codes "A" && before =t codes ":000000" && after =t codes "100644")
    || (status =t codes "D" && before =t codes ":100644" && after =t codes "000000")
    || (status =t codes "M" && before =t codes ":100644" && after =t codes "100644")

unfoldable pub is_ascii : Text → Bool
is_ascii = all (λ c. ltb c 128)

abbrev pub starts_colon : Text → Bool
starts_colon [] = false
starts_colon (c ∷ s) = c == b':'

-- `if result is not None: return result`, in front of the records that follow
abbrev pub after_record : Result (Option Decision) → Result Decision → Result Decision
after_record (err e) rest = err e
after_record (ok (some d)) rest = ok d
after_record (ok none) rest = rest

module _ (lower : Text → Text) (utf8 : Text → Option Text) where
  unfoldable pub classify_path : Text → List Text → List Text → Option Decision
  classify_path path explicit required =
      if one_of required path
      then some (full "required-path-change")
      else if not (documentation_path lower path explicit)
      then some (full "non-documentation-change")
      else none

  abbrev pub decoded : Option Text → List Text → List Text → Result (Option Decision)
  decoded none explicit required = err "UnicodeDecodeError"
  decoded (some path) explicit required = ok (classify_path path explicit required)

  -- the five fields; `decode("ascii")` raises before the pattern is tried
  unfoldable pub classify_fields :
      Text → Text → Text → Text → Text → Text → List Text → List Text → Result (Option Decision)
  classify_fields before after old_hash new_hash status raw_path explicit required =
      if not (is_ascii old_hash)
      then err "UnicodeDecodeError"
      else if not (is_sha old_hash)
      then ok (some (full "invalid-diff"))
      else if not (is_ascii new_hash)
      then err "UnicodeDecodeError"
      else if not (is_sha new_hash)
      then ok (some (full "invalid-diff"))
      else if not (expected_modes status before after)
      then ok (some (full "non-regular-or-mode-change"))
      else decoded (utf8 raw_path) explicit required

  abbrev pub classify_words : List Text → Text → List Text → List Text → Result (Option Decision)
  classify_words (before ∷ after ∷ old_hash ∷ new_hash ∷ status ∷ []) raw_path explicit required =
      if starts_colon before
      then classify_fields before after old_hash new_hash status raw_path explicit required
      else ok (some (full "invalid-diff"))
  classify_words _ raw_path explicit required = ok (some (full "invalid-diff"))

  -- `classify_record`
  unfoldable pub classify_record : Text → Text → List Text → List Text → Result (Option Decision)
  classify_record header raw_path explicit required =
      classify_words (words_of header) raw_path explicit required

  -- the loop over the records, two at a time
  unfoldable pub classify_records : List Text → List Text → List Text → Result Decision
  classify_records [] explicit required = ok skip
  classify_records (header ∷ []) explicit required = ok (full "invalid-diff")
  classify_records (header ∷ raw_path ∷ records) explicit required =
      after_record (classify_record header raw_path explicit required)
        (classify_records records explicit required)

abbrev pub is_even : List Text → Bool
is_even [] = true
is_even (x ∷ []) = false
is_even (x ∷ y ∷ xs) = is_even xs

abbrev pub max_diff_bytes : ℕ
max_diff_bytes = 8 * 1024 * 1024

-- `raw[:-1]`, if the last byte is NUL
unfoldable pub before_nul : Text → Option Text
before_nul [] = none
before_nul (c ∷ []) = if c == 0 then some [] else none
before_nul (c ∷ d ∷ s) = elim (before_nul (d ∷ s)) [ none ↦ none | some r ↦ some (c ∷ r) ]

module _ (lower : Text → Text) (utf8 : Text → Option Text) where
  abbrev pub classify_split : List Text → List Text → List Text → Result Decision
  classify_split records explicit required =
      if is_even records
      then classify_records lower utf8 records explicit required
      else ok (full "invalid-diff")

  abbrev pub classify_body : Option Text → List Text → List Text → Result Decision
  classify_body none explicit required = ok (full "invalid-diff")
  classify_body (some body) explicit required = classify_split (split_on 0 body) explicit required

  -- `classify_diff`
  unfoldable pub classify_diff : Text → List Text → List Text → Result Decision
  classify_diff raw explicit required =
      if is_empty raw
      then ok (full "empty-diff")
      else if ltb max_diff_bytes (length raw)
      then ok (full "invalid-diff")
      else classify_body (before_nul raw) explicit required
