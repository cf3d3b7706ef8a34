-- ===== src/Grep/Laws.antt =====
-- About what the hooks use of the compression of outputs (grep-output-compress.ts).
use ctxlite.Prelude.{
  ℕ, ◌+◌, ◌-◌, ◌*◌, ◌≤◌, inl, inr, List, [], ◌∷◌, arith, Text, length, length-append, Dict, or_else,
  take, ltb, if◌then◌else◌, Bool-cases, length-take,
}
use ctxlite.Tokens.{estimate_tokens}
use ctxlite.Compress.{default_options}
use ctxlite.Compress.Laws.{
  IsHonest, unchanged-IsHonest, keep_if_smaller-IsHonest, compress_tool_output-IsHonest,
}
use ctxlite.Grep.{
  GrepOptions, default_grep_options, group_note, show_group, show_groups, files_note, output_lines,
  show_if_any, group_lines, compress_grep_output, compress_output_for_tool,
}

compress_grep_output-IsHonest :
    (text : Text) (options : GrepOptions) → IsHonest text (compress_grep_output text options)
unfolding compress_grep_output show_if_any
compress_grep_output-IsHonest text options =
    elim (Bool-cases (ltb (estimate_tokens text) (or_else options.min_tokens 128))) [
      | inl e ↦ rw e (unchanged-IsHonest text)
      | inr e ↦
          rw e
            (elim (group_lines text)
              as (λ g. IsHonest text (
                show_if_any text (or_else options.max_lines_per_file 5)
                  (or_else options.max_files 30) g)) [
                    | [] ↦ unchanged-IsHonest text
                    | g ∷ gs ↦ keep_if_smaller-IsHonest text _
                  ])
    ]

-- Whatever the tool and its output, the result is honest: its counts are the estimates of the output
-- before and after, the saving is their difference, a compressed output has fewer tokens, and otherwise
-- the output is the tool's.
pub compress_output_for_tool-IsHonest :
    (tool_name text : Text) → IsHonest text (compress_output_for_tool tool_name text)
unfolding compress_output_for_tool
compress_output_for_tool-IsHonest tool_name text = ground (
  arith,
  compress_grep_output-IsHonest text default_grep_options,
  compress_tool_output-IsHonest text default_options,
)

length-show_group :
    (max_lines : ℕ) (file : Text) (lines : List Text)
    → length (show_group max_lines (file, lines)) ≤ max_lines + 1
unfolding show_group
length-show_group max_lines file lines =
    let note = group_note (length lines - length (take max_lines lines)) file in
    ground (arith, length-take max_lines lines, length-append (take max_lines lines) (note ∷ []))

length-show_groups :
    (max_lines : ℕ) (groups : Dict (List Text))
    → length (show_groups max_lines groups) ≤ length groups * (max_lines + 1)
unfolding show_groups
length-show_groups max_lines [] = omega arith
length-show_groups max_lines ((file, lines) ∷ gs) = grind (
  arith,
  length-append (show_group max_lines (file, lines)) (show_groups max_lines gs),
  length-show_group max_lines file lines,
  length-show_groups max_lines gs,
)

-- The output has at most maxFiles * (maxLinesPerFile + 1) + 1 lines: maxLinesPerFile and a note for
-- each of maxFiles files, and a note on the other files.
pub length-output_lines :
    (max_lines max_files : ℕ) (groups : Dict (List Text))
    → length (output_lines max_lines max_files groups) ≤ max_files * (max_lines + 1) + 1
unfolding output_lines
length-output_lines max_lines max_files groups =
    let shown = take max_files groups in
    let hidden = length groups - length shown in
    let note = if ltb 0 hidden then files_note hidden ∷ [] else [] in
    let note_bound : length note ≤ 1 = ground arith in
    grind (
      arith,
      length-append (show_groups max_lines shown) note,
      length-show_groups max_lines shown,
      length-take max_files groups,
    )
