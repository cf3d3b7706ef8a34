-- ===== src/Grep.antt =====
-- packages/core/src/grep-output-compress.ts: the compressor of grep's output, and the choice between
-- the two compressors.
pub mod Groups
pub mod Laws
mod Tests
use ctxlite.Prelude.{
  ℕ, zero, suc, ◌+◌, ◌-◌, ◌*◌, ◌/◌, ◌%◌, ◌≤◌, ◌<◌, min, max, String, ◌≡◌, refl, sym, ap, ap₂, ◌∙◌,
  ◌≢◌, ◌↔◌, ◌⊎◌, inl, inr, Bool, true, false, ◌&&◌, ◌||◌, not, Option, none, some, List, [], ◌∷◌,
  ◌++◌, map, append_assoc, append-nil, map-append, arith, Text, str, text_eq, text_eq_iff,
  text_eq_refl, length, length-append, join, Dict, dict_get, dict_set, dict_delete, get-set,
  get-delete, or_else, slice, take, drop, filter_by, any, all, All, trim, trim_end, starts_with,
  ends_with, includes, ltb, leb, ◌==◌, if◌then◌else◌, Option-cases, Bool-cases, print_nat,
  round_seven_tenths, lines_of, unlines, lower_unit, length-take, take-append-drop,
}
use ctxlite.Tokens.{estimate_tokens}
use ctxlite.Compress.{
  CompressResult, default_options, unchanged, keep_if_smaller, compress_tool_output,
}

pub record GrepOptions : Type 0 where
  pub min_tokens : Option ℕ
  pub max_lines_per_file : Option ℕ
  pub max_files : Option ℕ

abbrev pub default_grep_options : GrepOptions
default_grep_options = record { min_tokens = none; max_lines_per_file = none; max_files = none }

-- `[^\n:]+:` at the head of a line: the units before the first colon, and those behind it
unfoldable pub to_colon : Text → Option (Text × Text)
to_colon [] = none
to_colon (c ∷ s) =
    let longer = to_colon s in
    if c == b':'
    then some ([], s)
    else elim longer [ none ↦ none | some (file, rest) ↦ some (c ∷ file, rest) ]

-- `.` stands for every unit that does not end a line
abbrev ends_line : ℕ → Bool
ends_line c = c == 10 || c == 13 || c == 8232 || c == 8233

-- `\d*:(.*)$`
unfoldable pub digits_and_text : Text → Bool
digits_and_text [] = false
digits_and_text (c ∷ s) =
    let more = digits_and_text s in
    if leb b'0' c && leb c b'9' then more else c == b':' && not (any (λ d. ends_line d) s)

-- `\d+:(.*)$`
unfoldable pub is_place_and_text : Text → Bool
is_place_and_text [] = false
is_place_and_text (c ∷ s) = leb b'0' c && leb c b'9' && digits_and_text s

-- The file that a line of `grep -n` names; `none` for a line that does not match.
unfoldable pub file_of : Text → Option Text
file_of line = elim (to_colon line) [
  | none ↦ none
  | some (file, rest) ↦ elim file [
    | [] ↦ none
    | c ∷ cs ↦ if is_place_and_text rest then some (c ∷ cs) else none
  ]
]

abbrev pub lines_so_far : Option (List Text) → List Text
lines_so_far none = []
lines_so_far (some lines) = lines

-- `groups` and `groupByFile`, which hold the same objects: a file's group, in the order of the first
-- match of each file
unfoldable pub add_line : Option Text → Text → Dict (List Text) → Dict (List Text)
add_line none line groups = groups
add_line (some file) line groups =
    dict_set file (lines_so_far (dict_get file groups) ++ line ∷ []) groups

unfoldable pub group_from : List Text → Dict (List Text) → Dict (List Text)
group_from [] groups = groups
group_from (line ∷ lines) groups = group_from lines (add_line (file_of line) line groups)

unfoldable pub group_lines : Text → Dict (List Text)
group_lines text = group_from (lines_of text) []

unfoldable pub group_note : ℕ → Text → Text
group_note hidden file =
    str "  [ctxlite] … " ++ print_nat hidden ++ str " more match(es) in " ++ file ++ str " …"

unfoldable pub show_group : ℕ → Text × List Text → List Text
show_group max_lines (file, lines) =
    let shown = take max_lines lines in
    let hidden = length lines - length shown in
    if ltb 0 hidden then shown ++ group_note hidden file ∷ [] else shown

unfoldable pub show_groups : ℕ → Dict (List Text) → List Text
show_groups max_lines [] = []
show_groups max_lines (g ∷ gs) = show_group max_lines g ++ show_groups max_lines gs

unfoldable pub files_note : ℕ → Text
files_note hidden = str "[ctxlite] … " ++ print_nat hidden ++ str " more file(s) with matches …"

unfoldable pub output_lines : ℕ → ℕ → Dict (List Text) → List Text
output_lines max_lines max_files groups =
    let shown = take max_files groups in
    let hidden = length groups - length shown in
    show_groups max_lines shown ++ (if ltb 0 hidden then files_note hidden ∷ [] else [])

-- a group of lines that names no file leaves the text alone
unfoldable pub show_if_any : Text → ℕ → ℕ → Dict (List Text) → CompressResult
show_if_any text max_lines max_files [] = unchanged text
show_if_any text max_lines max_files (g ∷ gs) =
    keep_if_smaller text (unlines (output_lines max_lines max_files (g ∷ gs)))

unfoldable pub compress_grep_output : Text → GrepOptions → CompressResult
compress_grep_output text options =
    if ltb (estimate_tokens text) (or_else options.min_tokens 128)
    then unchanged text
    else show_if_any text (or_else options.max_lines_per_file 5) (or_else options.max_files 30)
        (group_lines text)

unfoldable pub compress_output_for_tool : Text → Text → CompressResult
compress_output_for_tool tool_name text =
    let result = compress_grep_output text default_grep_options in
    if not (text_eq (map lower_unit tool_name) (str "grep"))
    then compress_tool_output text default_options
    else if result.compressed
    then result
    else compress_tool_output text default_options
