-- ===== src/Notes/Lines.antt =====
-- `_release_lines`, `_release_heading_title` and `_release_headings` of scripts/release_control.py.
use inverter_gateway.Prelude.{
  drop, starts_with, ℕ, ◌+◌, Bool, true, false, not, Option, none, some, List, [], ◌∷◌, ◌&&◌, ◌||◌,
  if◌then◌else◌, Text, codes, ◌==◌, leb, length, any, is_empty,
}
use inverter_gateway.Notes.Fence.{
  Fence, tick, count_front, release_fence, release_fence_closes, is_blank,
}
use inverter_gateway.Notes.Comment.{release_comment_line}

-- The lines of `io.StringIO(text)`, each with its line break.
abbrev pub onto_line : ℕ → List Text → List Text
onto_line c [] = (c ∷ []) ∷ []
onto_line c (line ∷ lines) = (c ∷ line) ∷ lines

unfoldable pub lines_of : Text → List Text
lines_of [] = []
lines_of (c ∷ s) = let rest = lines_of s in if c == 10 then (c ∷ []) ∷ rest else onto_line c rest

-- The triple that is yielded for a line.
pub record Line : Type 0 where
  pub visible : Text
  pub heading_allowed : Bool
  pub guidance : Bool

-- The two variables of the loop: the open fence, and whether a comment is open.
pub record Reader : Type 0 where
  pub fence : Option Fence
  pub comment : Bool

abbrev pub opens : Option Fence → Bool
opens none = false
opens (some f) = f.marker == b'~' || not (any (λ c. c == tick) f.info)

abbrev pub is_indented : Text → Bool
is_indented line = starts_with (codes "    ") line || starts_with (9 ∷ []) line

-- The rounds of the loop: in a fence, at a fence that opens, on indented code, and elsewhere.
abbrev pub fenced_line : Fence → Bool → Text → Option Fence → Line × Reader
fenced_line fence comment line candidate =
    let closes = release_fence_closes candidate fence in
    (
      record { visible = line; heading_allowed = false; guidance = not closes },
      record { fence = if closes then none else some fence; comment = comment },
    )

abbrev pub masked_line : Bool → Text → Line × Reader
masked_line comment line =
    let (visible, inside) = release_comment_line line comment in
    (
      record { visible = visible; heading_allowed = true; guidance = true },
      record { fence = none; comment = inside },
    )

unfoldable pub open_line : Bool → Text → Option Fence → Line × Reader
open_line comment line candidate =
    if not comment && opens candidate
    then (
      record { visible = line; heading_allowed = false; guidance = false },
      record { fence = candidate; comment = comment },
    )
    else if not comment && is_indented line
    then (
      record { visible = line; heading_allowed = false; guidance = true },
      record { fence = none; comment = comment },
    )
    else masked_line comment line

abbrev pub read_with : Option Fence → Bool → Text → Line × Reader
read_with none comment line = open_line comment line (release_fence line)
read_with (some fence) comment line = fenced_line fence comment line (release_fence line)

unfoldable pub read_line : Reader → Text → Line × Reader
read_line reader line = read_with reader.fence reader.comment line

unfoldable pub read_lines : Reader → List Text → List Line
read_lines reader [] = []
read_lines reader (line ∷ lines) =
    let (read, next) = read_line reader line in read ∷ read_lines next lines

-- `_release_lines`
unfoldable pub release_lines : Text → List Line
release_lines text = read_lines (record { fence = none; comment = false }) (lines_of text)

-- `s.rstrip(c)`-like cuts at the end of a text
unfoldable pub cut_end : (ℕ → Bool) → Text → Text
cut_end p [] = []
cut_end p (c ∷ s) = let rest = cut_end p s in if is_empty rest && p c then [] else c ∷ rest

unfoldable pub cut_front : (ℕ → Bool) → Text → Text
cut_front p [] = []
cut_front p (c ∷ s) = let rest = cut_front p s in if p c then rest else c ∷ s

abbrev pub is_gap : ℕ → Bool
is_gap c = c == 32 || c == 9

abbrev pub ends_gap : Text → Bool
ends_gap [] = false
ends_gap (c ∷ []) = is_gap c
ends_gap (c ∷ d ∷ s) = ends_gap (d ∷ s)

-- `_release_heading_title`
unfoldable pub release_heading_title : Text → Text
release_heading_title content =
    let title = cut_front is_blank (cut_end is_blank content) in
    let before_hashes = cut_end (λ c. c == b'#') title in
    if is_empty before_hashes || ends_gap before_hashes then cut_end is_gap before_hashes else title

pub record Heading : Type 0 where
  pub level : ℕ
  pub title : Text
  pub start : ℕ
  pub stop : ℕ

abbrev pub gap_or_end : Text → Bool
gap_or_end [] = true
gap_or_end (c ∷ s) = is_blank c

-- up to three leading spaces are taken off
unfoldable pub heading_text : Text → Text
heading_text line = if leb (count_front 32 line) 3 then drop (count_front 32 line) line else line

unfoldable pub is_heading : Line → Bool
is_heading line =
    let level = count_front b'#' (heading_text line.visible) in
    line.heading_allowed
    && leb 1 level
    && leb level 6
    && gap_or_end (drop level (heading_text line.visible))

unfoldable pub heading_at : ℕ → Line → Heading
heading_at offset line =
    let level = count_front b'#' (heading_text line.visible) in
    record {
      level = level;
      title = release_heading_title (drop level (heading_text line.visible));
      start = offset;
      stop = offset + length line.visible;
    }

-- the loop over the lines, from an offset on
unfoldable pub headings_from : ℕ → List Line → List Heading
headings_from offset [] = []
headings_from offset (line ∷ lines) =
    let rest = headings_from (offset + length line.visible) lines in
    if is_heading line then heading_at offset line ∷ rest else rest

-- `_release_headings`
unfoldable pub release_headings : Text → List Heading
release_headings text = headings_from 0 (release_lines text)
