-- ===== src/Examples/NotesFacts.antt =====
-- Release notes with a comment, a fenced example and two headings.
use inverter_gateway.Prelude.{
  true, false, [], ◌∷◌, ◌++◌, ◌≡◌, refl, Text, codes, length, strip_prefix,
}
use inverter_gateway.Notes.Fence.{count_front, skip_front, release_fence, release_fence_closes}
use inverter_gateway.Notes.Comment.{
  tick_runs, value_at, pair_runs, release_code_span_ends, comment_size, move, visible_rest,
  release_comment_line,
}
use inverter_gateway.Notes.Lines.{
  lines_of, open_line, read_line, read_lines, release_lines, cut_end, cut_front,
  release_heading_title, heading_text, is_heading, heading_at, headings_from, release_headings,
}
use inverter_gateway.Notes.Masks.{Masks, release_comment_line-Masks}
use inverter_gateway.Notes.Offsets.{
  visible_text, Located, release_lines-Masks, release_headings-Located,
}

-- Opening this opens the reader, so that it runs on concrete texts.
unfoldable notes_code : Unit {0}
unfolding strip_prefix count_front skip_front release_fence release_fence_closes tick_runs value_at
    pair_runs release_code_span_ends comment_size move visible_rest release_comment_line lines_of
    open_line read_line read_lines release_lines cut_end cut_front release_heading_title
    heading_text is_heading heading_at headings_from release_headings
notes_code = tt

abbrev sample_notes : Text
sample_notes =
    codes "# New <!-- # no\n# no --> #\n" ++ codes "```\n# code\n```\n" ++ codes " ## Fixed ##\n"

-- The comment spans two lines, and the heading in the fence is code.
sample_headings :
    release_headings sample_notes
    ≡ record { level = 1; title = codes "New"; start = 0; stop = 16 }
      ∷ record { level = 2; title = codes "Fixed"; start = 42; stop = 55 }
      ∷ []
unfolding notes_code
sample_headings = refl

-- A mark in a code span or behind a backslash opens no comment.
code_span_shown :
    release_comment_line (codes "`<!--` \\<!-- a <!-- b") false
    ≡ (codes "`<!--` \\<!-- a       ", true)
unfolding notes_code
code_span_shown = refl

release_comment_line-Masks_example :
    Masks (codes "a <!-- b") ((release_comment_line (codes "a <!-- b") false).0)
release_comment_line-Masks_example = release_comment_line-Masks (codes "a <!-- b") false

release_lines-Masks_example : Masks sample_notes (visible_text (release_lines sample_notes))
release_lines-Masks_example = release_lines-Masks sample_notes

release_headings-Located_example : Located 0 (length sample_notes) (release_headings sample_notes)
release_headings-Located_example = release_headings-Located sample_notes
