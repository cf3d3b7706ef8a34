-- ===== src/Grep/Tests.antt =====
-- Runs of the compressor of grep's output (grep-output-compress.ts).
use ctxlite.Prelude.{
  ◌≡◌, refl, none, some, [], ◌∷◌, ◌++◌, Text, str, text_eq, dict_get, dict_set, filter_by, any,
  print_nat, lines_of,
}
use ctxlite.Compress.Laws.{IsHonest}
use ctxlite.Grep.{
  file_of, to_colon, is_place_and_text, digits_and_text, lines_so_far, group_lines, group_from,
  add_line, output_lines, show_groups, show_group, group_note, files_note, compress_output_for_tool,
}
use ctxlite.Grep.Groups.{matches_in, group_lines-filter}
use ctxlite.Grep.Laws.{compress_output_for_tool-IsHonest}

grep : Unit {0}
unfolding file_of to_colon is_place_and_text digits_and_text group_lines group_from add_line
    output_lines show_groups show_group group_note files_note str any dict_get dict_set text_eq
    lines_of print_nat filter_by
grep = tt

-- A line of a file with Windows line ends has a carriage return at its end, which `.` does not match.
file_names :
    (file_of (str "src/a.ts:12: foo(b:1)") ≡ some (str "src/a.ts"))
    × (file_of (str "src/a.ts: foo") ≡ none)
    × (file_of (str "C:\\a.ts:12: foo") ≡ none)
    × (file_of (str "src/a.ts:12: foo" ++ 13 ∷ []) ≡ none)
unfolding grep
file_names = (refl, refl, refl, refl)

abbrev found : Text
found = str "a:1:x" ++ 10 ∷ str "b:2:y" ++ 10 ∷ str "a:3:z" ++ 10 ∷ str "c:9:w" ++ 13 ∷ []

-- The last line is in no group, and no note tells of it.
windows_line_is_lost :
    output_lines 5 30 (group_lines found) ≡ str "a:1:x" ∷ str "a:3:z" ∷ str "b:2:y" ∷ []
unfolding grep
windows_line_is_lost = refl

caps :
    output_lines 1 1 (group_lines found)
    ≡ str "a:1:x"
      ∷ str "  [ctxlite] … 1 more match(es) in a …"
      ∷ str "[ctxlite] … 1 more file(s) with matches …"
      ∷ []
unfolding grep
caps = refl

group_lines-filter_example :
    lines_so_far (dict_get (str "a") (group_lines found))
    ≡ filter_by (matches_in (str "a")) (lines_of found)
group_lines-filter_example = group_lines-filter (str "a") found

compress_output_for_tool-IsHonest_example :
    IsHonest found (compress_output_for_tool (str "Grep") found)
compress_output_for_tool-IsHonest_example = compress_output_for_tool-IsHonest (str "Grep") found
