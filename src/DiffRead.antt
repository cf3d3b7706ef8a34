-- ===== src/DiffRead.antt =====
-- packages/core/src/diff-read.ts: the parts of a file that a diff touches, within a budget.
pub mod Laws
mod Tests
use ctxlite.Prelude.{
  ℕ, zero, suc, ◌+◌, ◌-◌, ◌*◌, ◌/◌, ◌%◌, ◌≤◌, ◌<◌, min, max, String, ◌≡◌, refl, sym, ap, ap₂, ◌∙◌,
  ◌≢◌, ◌↔◌, ◌⊎◌, inl, inr, Bool, true, false, ◌&&◌, ◌||◌, not, Option, none, some, List, [], ◌∷◌,
  ◌++◌, map, append_assoc, append-nil, map-append, arith, Text, str, text_eq, text_eq_iff,
  text_eq_refl, length, length-append, join, Dict, dict_get, dict_set, dict_delete, get-set,
  get-delete, or_else, slice, take, drop, filter_by, any, all, All, trim, trim_end, starts_with,
  ends_with, includes, ltb, leb, ◌==◌, if◌then◌else◌, Option-cases, Bool-cases, print_nat,
  round_seven_tenths, lines_of, unlines, ◌>>=◌, newline, lower_unit, length-take, length-drop,
  take-append-drop,
}
use ctxlite.Host.{Host}
use ctxlite.Tokens.{estimate_tokens}

pub record DiffHunk : Type 0 where
  pub new_start : ℕ
  pub new_count : ℕ

abbrev is_digit : ℕ → Bool
is_digit c = leb b'0' c && leb c b'9'

-- `(\d+)`: the value of the digits at the head, and the rest; `none` where there is no digit
unfoldable pub digits_from : ℕ → Text → ℕ × Text
digits_from n [] = (n, [])
digits_from n (c ∷ s) =
    let more = digits_from (n * 10 + (c - b'0')) s in if is_digit c then more else (n, c ∷ s)

unfoldable pub number_at : Text → Option (ℕ × Text)
number_at [] = none
number_at (c ∷ s) = if is_digit c then some (digits_from 0 (c ∷ s)) else none

-- the rest behind a text that the head has to be
unfoldable pub expect : Text → Text → Option Text
expect [] s = some s
expect (d ∷ p) [] = none
expect (d ∷ p) (c ∷ s) = if c == d then expect p s else none

-- `(?:,(\d+))?`
unfoldable pub optional_count : Text → Option ℕ × Text
optional_count [] = (none, [])
optional_count (c ∷ s) = elim (number_at s) [
  | none ↦ (none, c ∷ s)
  | some (n, rest) ↦ if c == b',' then (some n, rest) else (none, c ∷ s)
]

-- `/^@@ -\d+(?:,\d+)? \+(\d+)(?:,(\d+))? @@/`: the two captured numbers
unfoldable pub parse_header : Text → Option (ℕ × Option ℕ)
parse_header line = do
  after_start ← expect (str "@@ -") line
  (old_start, after_old) ← number_at after_start
  let (old_count, after_count) = optional_count after_old
  after_plus ← expect (str " +") after_count
  (new_start, after_new) ← number_at after_plus
  let (new_count, rest) = optional_count after_new
  end ← expect (str " @@") rest
  some (new_start, new_count)

abbrev hunk_of : Option (ℕ × Option ℕ) → List DiffHunk
hunk_of none = []
hunk_of (some (new_start, new_count)) =
    if ltb 0 new_start
    then record { new_start = new_start; new_count = or_else new_count 1 } ∷ []
    else []

unfoldable pub hunks_of_lines : List Text → List DiffHunk
hunks_of_lines [] = []
hunks_of_lines (line ∷ lines) = hunk_of (parse_header (trim line)) ++ hunks_of_lines lines

unfoldable pub parse_unified_diff_hunks : Text → List DiffHunk
parse_unified_diff_hunks diff = hunks_of_lines (lines_of diff)

unfoldable pub number_lines : ℕ → List Text → List Text
number_lines n [] = []
number_lines n (line ∷ lines) = (print_nat n ++ str "|" ++ line) ∷ number_lines (n + 1) lines

abbrev fence : Text
fence = str "```"

unfoldable pub format_hunk_block : ℕ → List Text → Text
format_hunk_block start_line lines = unlines (
    (str "### hunk @ L"
      ++ print_nat start_line
      ++ str "-"
      ++ print_nat (start_line + length lines - 1))
    ∷ fence
    ∷ unlines (number_lines start_line lines)
    ∷ fence
    ∷ [])

unfoldable pub range_start : ℕ → DiffHunk → ℕ
range_start context hunk = max 1 (hunk.new_start - context)

unfoldable pub range_end : ℕ → List Text → DiffHunk → ℕ
range_end context file_lines hunk =
    min (length file_lines) (hunk.new_start + max hunk.new_count 1 - 1 + context)

unfoldable pub block_of : ℕ → List Text → DiffHunk → Text
block_of context file_lines hunk =
    let start = range_start context hunk in
    format_hunk_block start (slice (start - 1) (range_end context file_lines hunk) file_lines)

unfoldable pub omitted_note : ℕ → ℕ → Text
omitted_note left budget =
    str "_("
    ++ print_nat left
    ++ str " more hunks omitted — budget "
    ++ print_nat budget
    ++ str " tokens)_"

-- The variables of the loop.
pub record Progress : Type 0 where
  pub blocks : List Text
  pub tokens_out : ℕ
  pub hunks_included : ℕ

-- the loop over the blocks of the hunks that are left
unfoldable pub include_blocks : ℕ → ℕ → List Text → Progress → Progress
include_blocks total budget [] p = p
include_blocks total budget (block ∷ left) p =
    let taken = include_blocks total budget left (record {
      blocks = p.blocks ++ block ∷ [];
      tokens_out = p.tokens_out + estimate_tokens block;
      hunks_included = p.hunks_included + 1;
    }) in
    if ltb budget (p.tokens_out + estimate_tokens block) && ltb 0 p.hunks_included
    then record p { blocks = p.blocks ++ omitted_note (total - p.hunks_included) budget ∷ [] }
    else taken

pub record DiffReadResult : Type 0 where
  pub output : Text
  pub tokens_in : ℕ
  pub tokens_out : ℕ
  pub tokens_saved : ℕ
  pub hunks_included : ℕ

-- What the promise becomes: an error or a result.
pub data DiffReadOutcome : Type 0 where
  diff_too_large no_hunks file_not_found budget_too_small : DiffReadOutcome
  read : DiffReadResult → DiffReadOutcome

abbrev heading : Text → Text
heading path = str "## diff_read " ++ path

unfoldable pub read_hunks : Text → ℕ → ℕ → Text → List DiffHunk → DiffReadOutcome
read_hunks path context budget content hunks =
    let blocks = map (block_of context (lines_of content)) hunks in
    let p = include_blocks (length hunks) budget blocks (record {
      blocks = heading path ∷ [];
      tokens_out = estimate_tokens (heading path);
      hunks_included = 0;
    }) in
    let output = join (newline ∷ newline ∷ []) p.blocks in
    if p.hunks_included == 0
    then budget_too_small
    else read (record {
      output = output;
      tokens_in = estimate_tokens content;
      tokens_out = estimate_tokens output;
      tokens_saved = estimate_tokens content - estimate_tokens output;
      hunks_included = p.hunks_included;
    })

abbrev read_content : Text → ℕ → ℕ → List DiffHunk → Option Text → DiffReadOutcome
read_content path context budget hunks none = file_not_found
read_content path context budget hunks (some content) = read_hunks path context budget content hunks

abbrev pub max_diff_units : ℕ
max_diff_units = 1048576

abbrev resolved : Host → Text → Text → Text
resolved host cwd path = if host.is_absolute path then path else host.resolve cwd path

-- Three lines of context and a budget of 1500 tokens, unless they are given.
unfoldable pub diff_read : Host → Text → Text → Option ℕ → Option ℕ → Text → DiffReadOutcome
diff_read host path diff context_lines budget cwd =
    let hunks = parse_unified_diff_hunks diff in
    if ltb max_diff_units (length diff)
    then diff_too_large
    else if length hunks == 0
    then no_hunks
    else read_content path (or_else context_lines 3) (or_else budget 1500) hunks
        (host.content_of (resolved host cwd path))
