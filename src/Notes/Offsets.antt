-- ===== src/Notes/Offsets.antt =====
-- The lines and headings that the reader of scripts/release_control.py yields keep the offsets of the text.
use inverter_gateway.Prelude.{
  length-append, drop, ℕ, ◌+◌, ◌≤◌, ◌<◌, Bool, true, false, not, Option, none, some, List, [], ◌∷◌,
  ◌++◌, ◌≡◌, refl, sym, ap, subst, ◌∙◌, ◌&&◌, Text, ◌==◌, leb, leb→le, length, arith, Bool-cases,
  inl, inr, if_true, if_false, &&-true,
}
use inverter_gateway.Notes.Fence.{Fence, count_front, release_fence}
use inverter_gateway.Notes.Lines.{
  lines_of, onto_line, Line, Reader, opens, is_indented, open_line, read_with, read_line,
  read_lines, release_lines, Heading, heading_text, is_heading, heading_at, headings_from,
  release_headings, gap_or_end,
}
use inverter_gateway.Notes.Masks.{
  Masks, nothing, Masks-self, Masks-append, Masks-length, release_comment_line-Masks,
}

abbrev concat : List Text → Text
concat [] = []
concat (line ∷ lines) = line ++ concat lines

-- `"".join(line for line, _, _ in lines)`
abbrev pub visible_text : List Line → Text
visible_text [] = []
visible_text (line ∷ lines) = line.visible ++ visible_text lines

concat-onto_line : (c : ℕ) (lines : List Text) → concat (onto_line c lines) ≡ c ∷ concat lines
concat-onto_line c [] = refl
concat-onto_line c (line ∷ lines) = refl

concat-lines_of : (s : Text) → concat (lines_of s) ≡ s
unfolding lines_of
concat-lines_of [] = refl
concat-lines_of (c ∷ s) = elim (Bool-cases (c == 10)) [
  | inl break ↦ ap concat (if_true (c == 10) _ _ break) ∙ ap (λ t. c ∷ t) (concat-lines_of s)
  | inr other ↦
      ap concat (if_false (c == 10) _ _ other)
      ∙ concat-onto_line c (lines_of s)
      ∙ ap (λ t. c ∷ t) (concat-lines_of s)
]

open_line-Masks :
    (comment : Bool) (line : Text) (candidate : Option Fence)
    → Masks line ((open_line comment line candidate).0.visible)
unfolding open_line
open_line-Masks comment line candidate = elim (Bool-cases (not comment && opens candidate)) [
  | inl fenced ↦
      subst (λ (r : Line × Reader). Masks line (r.0.visible))
        (sym (if_true (not comment && opens candidate) _ _ fenced)) (Masks-self line)
  | inr other ↦
      subst (λ (r : Line × Reader). Masks line (r.0.visible))
        (sym (if_false (not comment && opens candidate) _ _ other))
        (elim (Bool-cases (not comment && is_indented line)) [
          | inl code ↦
              subst (λ (r : Line × Reader). Masks line (r.0.visible))
                (sym (if_true (not comment && is_indented line) _ _ code)) (Masks-self line)
          | inr plain ↦
              subst (λ (r : Line × Reader). Masks line (r.0.visible))
                (sym (if_false (not comment && is_indented line) _ _ plain))
                (release_comment_line-Masks line comment)
        ])
]

read_with-Masks :
    (fence : Option Fence) (comment : Bool) (line : Text)
    → Masks line ((read_with fence comment line).0.visible)
read_with-Masks none comment line = open_line-Masks comment line (release_fence line)
read_with-Masks (some fence) comment line = Masks-self line

read_lines-Masks :
    (reader : Reader) (lines : List Text)
    → Masks (concat lines) (visible_text (read_lines reader lines))
unfolding read_lines read_line
read_lines-Masks reader [] = nothing
read_lines-Masks reader (line ∷ lines) =
    Masks-append _ _ _ _ (read_with-Masks reader.fence reader.comment line)
      (read_lines-Masks ((read_with reader.fence reader.comment line).1) lines)

-- The visible lines, joined, are the text with spaces in place of hidden characters: each character keeps its
-- offset, and each line break stays.
pub release_lines-Masks : (text : Text) → Masks text (visible_text (release_lines text))
unfolding release_lines
release_lines-Masks text =
    subst (λ t. Masks t (visible_text (release_lines text))) (concat-lines_of text)
      (read_lines-Masks (record { fence = none; comment = false }) (lines_of text))

-- Headings of levels 1 to 6, one after the other between two offsets.
abbrev pub Located : ℕ → ℕ → List Heading → Type 0
Located from limit [] = Unit
Located from limit (h ∷ hs) =
    (from ≤ h.start)
    × (h.start < h.stop)
    × (h.stop ≤ limit)
    × (1 ≤ h.level)
    × (h.level ≤ 6)
    × Located h.stop limit hs

Located-weaken :
    (m n limit : ℕ) (hs : List Heading) → m ≤ n → Located n limit hs → Located m limit hs
Located-weaken m n limit [] h k = tt
Located-weaken m n limit (x ∷ hs) h (first, a, b, c, d, rest) =
    (omega (arith, h, first), a, b, c, d, rest)

is_heading-level :
    (line : Line)
    → is_heading line ≡ true
    → (1 ≤ count_front b'#' (heading_text line.visible))
      × (count_front b'#' (heading_text line.visible) ≤ 6)
unfolding is_heading
is_heading-level line h =
    let level = count_front b'#' (heading_text line.visible) in
    let (allowed_between, _) =
      &&-true (line.heading_allowed && leb 1 level && leb level 6)
        (gap_or_end (drop level (heading_text line.visible))) h in
    let (allowed_above, below) =
      &&-true (line.heading_allowed && leb 1 level) (leb level 6) allowed_between in
    let (_, above) = &&-true line.heading_allowed (leb 1 level) allowed_above in
    (leb→le 1 level above, leb→le level 6 below)

level-visible : (s : Text) → 1 ≤ count_front b'#' (heading_text s) → 0 < length s
unfolding heading_text count_front
level-visible [] h = absurd (omega (arith, h))
level-visible (c ∷ s) h = omega arith

headings_from-Located :
    (offset : ℕ) (lines : List Line)
    → Located offset (offset + length (visible_text lines)) (headings_from offset lines)
unfolding headings_from heading_at
headings_from-Located offset [] = tt
headings_from-Located offset (line ∷ lines) =
    let next = offset + length line.visible in
    let limit = offset + length (line.visible ++ visible_text lines) in
    let same : next + length (visible_text lines) ≡ limit =
      omega (arith, length-append line.visible (visible_text lines)) in
    let rest : Located next limit (headings_from next lines) =
      subst (λ n. Located next n (headings_from next lines)) same
        (headings_from-Located next lines) in
    elim (Bool-cases (is_heading line)) [
      | inl heading ↦
          let (above, below) = is_heading-level line heading in
          let visible = level-visible line.visible above in
          subst (Located offset limit) (sym (if_true (is_heading line) _ _ heading))
            (omega arith, omega (arith, visible), omega (arith, same), above, below, rest)
      | inr other ↦
          subst (Located offset limit) (sym (if_false (is_heading line) _ _ other))
            (Located-weaken offset next limit _ (omega arith) rest)
    ]

-- The headings have levels 1 to 6, follow one another, and end within the text; the start of each lies before
-- its end.
pub release_headings-Located : (text : Text) → Located 0 (length text) (release_headings text)
unfolding release_headings
release_headings-Located text =
    subst (λ n. Located 0 n (release_headings text)) (Masks-length _ _ (release_lines-Masks text))
      (subst (λ n. Located 0 n (release_headings text)) (omega arith)
        (headings_from-Located 0 (release_lines text)))
