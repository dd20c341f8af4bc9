-- ===== src/Notes/Comment.antt =====
-- `_release_code_span_ends` and `_release_comment_line` of scripts/release_control.py. The loop over positions
-- is a recursion on fuel for two rounds per character: a round passes a character, or opens a
-- comment in front of four.
use inverter_gateway.Prelude.{
  ℕ, zero, suc, ◌+◌, ◌-◌, ◌*◌, Bool, true, false, Option, none, some, List, [], ◌∷◌, ◌++◌, ◌||◌,
  if◌then◌else◌, Text, codes, ◌==◌, length, map, starts_with, take, drop,
}
use inverter_gateway.Notes.Fence.{tick}

-- a run of backticks: its first position and the one after its last
abbrev pub Span : Type 0
Span = ℕ × ℕ

-- a backtick at a position, in front of the runs that follow it
abbrev pub extend_run : ℕ → List Span → List Span
extend_run at [] = (at, at + 1) ∷ []
extend_run at ((start, stop) ∷ runs) =
    if start == at + 1 then (at, stop) ∷ runs else (at, at + 1) ∷ (start, stop) ∷ runs

-- `re.finditer("`+", line)`, from a position on
unfoldable pub tick_runs : ℕ → Text → List Span
tick_runs at [] = []
tick_runs at (c ∷ s) =
    let rest = tick_runs (suc at) s in if c == tick then extend_run at rest else rest

-- the first value of a key
unfoldable pub value_at : List Span → ℕ → Option ℕ
value_at [] key = none
value_at ((k, v) ∷ entries) key = if k == key then some v else value_at entries key

abbrev pub span_length : Span → ℕ
span_length (start, stop) = stop - start

abbrev pub add_end : Span → Option ℕ → List Span → List Span
add_end (start, stop) none ends = ends
add_end (start, stop) (some end) ends = (start, end) ∷ ends

-- The pass over the runs from the last to the first: the end of the next run of each length, and
-- where the span that a run opens ends.
unfoldable pub pair_runs : List Span → List Span × List Span
pair_runs [] = ([], [])
pair_runs (run ∷ runs) =
    let (following, ends) = pair_runs runs in
    ((span_length run, run.1) ∷ following, add_end run (value_at following (span_length run)) ends)

-- `_release_code_span_ends`
unfoldable pub release_code_span_ends : Text → List Span
release_code_span_ends line = (pair_runs (tick_runs 0 line)).1

-- `line.find("-->", position)`, with what follows the mark
abbrev pub close_mark : Text
close_mark = codes "-->"

-- the number of characters up to the end of the first closing mark
unfoldable pub comment_size : Text → Option ℕ
comment_size [] = none
comment_size (c ∷ s) =
    let rest = comment_size s in
    if starts_with close_mark (c ∷ s)
    then some 3
    else elim rest [ none ↦ none | some n ↦ some (suc n) ]

-- `char if char in "\r\n" else " "`
abbrev pub hide : ℕ → ℕ
hide c = if c == 13 || c == 10 then c else 32

-- How the loop goes on at a position of the line: the characters that it passes, whether it hides
-- them, and whether a comment is open after them.
pub record Move : Type 0 where
  pub size : ℕ
  pub hides : Bool
  pub comment : Bool

abbrev pub within_comment : Text → Option ℕ → Move
within_comment rest none = record { size = length rest; hides = true; comment = true }
within_comment rest (some n) = record { size = n; hides = true; comment = false }

abbrev pub at_code : Text → ℕ → Option ℕ → Move
at_code rest at (some end) = record { size = end - at; hides = false; comment = false }
at_code rest at none =
    if starts_with (codes "<!--") rest
    then record { size = 0; hides = false; comment = true }
    else record { size = 1; hides = false; comment = false }

unfoldable pub move : List Span → ℕ → Bool → ℕ → Text → Move
move ends at true c s = within_comment (c ∷ s) (comment_size (c ∷ s))
move ends at false c s =
    if c == 92
    then record { size = 2; hides = false; comment = false }
    else at_code (c ∷ s) at (value_at ends at)

abbrev pub shown : Bool → Text → Text
shown true s = map hide s
shown false s = s

-- the loop: what is visible of the rest of the line, and whether a comment is open at its end
unfoldable pub visible_rest : ℕ → List Span → ℕ → Bool → Text → Text × Bool
visible_rest fuel ends at comment [] = ([], comment)
visible_rest zero ends at comment (c ∷ s) = ([], comment)
visible_rest (suc fuel) ends at comment (c ∷ s) =
    let m = move ends at comment c s in
    let (visible, inside) = visible_rest fuel ends (at + m.size) m.comment (drop m.size (c ∷ s)) in
    (shown m.hides (take m.size (c ∷ s)) ++ visible, inside)

-- `_release_comment_line`
unfoldable pub release_comment_line : Text → Bool → Text × Bool
release_comment_line line comment =
    visible_rest (2 * length line) (release_code_span_ends line) 0 comment line
