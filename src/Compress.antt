-- ===== src/Compress.antt =====
-- packages/core/src/tool-output-compress.ts: the generic compressor of tool outputs.
pub mod Laws
pub mod Bounds
mod Tests
use ctxlite.Prelude.{
  ℕ, zero, suc, ◌+◌, ◌-◌, ◌*◌, ◌/◌, ◌≤◌, ◌<◌, ◌≡◌, Bool, true, false, ◌&&◌, ◌||◌, Option, none,
  some, List, [], ◌∷◌, ◌++◌, Text, str, length, take, slice_last, drop, if◌then◌else◌, ◌==◌, ltb,
  leb, or_else, lines_of, unlines, newline, print_nat, print_sub,
}
use ctxlite.Tokens.{estimate_tokens}

pub record CompressOptions : Type 0 where
  pub min_tokens : Option ℕ
  pub max_chars : Option ℕ
  pub head_lines : Option ℕ
  pub tail_lines : Option ℕ

abbrev pub default_options : CompressOptions
default_options = record {
  min_tokens = none;
  max_chars = none;
  head_lines = none;
  tail_lines = none;
}

pub record CompressResult : Type 0 where
  pub output : Text
  pub tokens_in : ℕ
  pub tokens_out : ℕ
  pub tokens_saved : ℕ
  pub compressed : Bool

-- The result that leaves the text alone.
unfoldable pub unchanged : Text → CompressResult
unchanged text = record {
  output = text;
  tokens_in = estimate_tokens text;
  tokens_out = estimate_tokens text;
  tokens_saved = 0;
  compressed = false;
}

-- The result that replaces `text` by `output`.
unfoldable pub replaced : Text → Text → CompressResult
replaced text output = record {
  output = output;
  tokens_in = estimate_tokens text;
  tokens_out = estimate_tokens output;
  tokens_saved = estimate_tokens text - estimate_tokens output;
  compressed = true;
}

-- `/\u001b\[[0-9;]*m/`: the length of a match of the parameters and the final `m`, counted from `n`,
-- or 0 if there is none
sgr_length : ℕ → Text → ℕ
sgr_length n [] = 0
sgr_length n (c ∷ s) =
    let more = sgr_length (n + 1) s in
    if leb b'0' c && leb c b'9' || c == b';' then more else if c == b'm' then n + 1 else 0

ansi_length : Text → ℕ
ansi_length (c ∷ d ∷ s) = if c == 27 && d == b'[' then sgr_length 2 s else 0
ansi_length _ = 0

-- `text.replace(ANSI_RE, "")`; `skip` counts the units left of a match
strip_from : ℕ → Text → Text
strip_from skip [] = []
strip_from (suc skip) (c ∷ s) = strip_from skip s
strip_from zero (c ∷ s) =
    let n = ansi_length (c ∷ s) in
    let kept = c ∷ strip_from zero s in
    let skipped = strip_from (n - 1) s in if n == 0 then kept else skipped

unfoldable pub strip_ansi : Text → Text
unfolding strip_from ansi_length sgr_length
strip_ansi = strip_from zero

-- `replace(/\n{4,}/g, "\n\n\n")`: a run of line ends keeps three of them; `seen` counts those kept
collapse_from : ℕ → Text → Text
collapse_from seen [] = []
collapse_from seen (c ∷ s) =
    let dropped = collapse_from seen s in
    let kept = c ∷ collapse_from (seen + 1) s in
    let other = c ∷ collapse_from 0 s in
    if c == newline then (if leb 3 seen then dropped else kept) else other

unfoldable pub collapse_newlines : Text → Text
unfolding collapse_from
collapse_newlines = collapse_from 0

-- The branch for many lines: the first and the last lines round a note.
unfoldable pub elide_lines : ℕ → ℕ → List Text → Text
elide_lines head_lines tail_lines lines =
    let head = unlines (take head_lines lines) in
    let tail = unlines (slice_last tail_lines lines) in
    let omitted = print_sub (length lines) (head_lines + tail_lines) in
    let saved = print_sub (estimate_tokens (unlines lines)) (estimate_tokens (head ++ tail)) in
    unlines (
      head
      ∷ []
      ∷ (str "[ctxlite] … "
          ++ (omitted ++ (str " lines omitted (" ++ (saved ++ str " tokens saved) …"))))
      ∷ []
      ∷ tail
      ∷ [])

-- `normalized.slice(-(maxChars - headChars - 80))`, where the difference may be negative
unfoldable pub tail_chars : ℕ → ℕ → Text → Text
tail_chars max_chars head_chars s =
    if ltb (head_chars + 80) max_chars
    then slice_last (max_chars - (head_chars + 80)) s
    else drop (head_chars + 80 - max_chars) s

-- The branch for few, long lines: the first and the last characters round a note. `max * 0.65` is
-- rounded down to the same integer as `65 * max / 100`.
unfoldable pub elide_chars : ℕ → Text → Text
unfolding tail_chars
elide_chars max_chars s =
    let head_chars = 65 * max_chars / 100 in
    let omitted = print_nat (length s + 80 - max_chars) in
    unlines (
      take head_chars s
      ∷ []
      ∷ (str "[ctxlite] … " ++ (omitted ++ str " chars omitted …"))
      ∷ []
      ∷ tail_chars max_chars head_chars s
      ∷ [])

unfoldable pub shorten : ℕ → ℕ → ℕ → Text → Text
shorten max_chars head_lines tail_lines normalized =
    if ltb (head_lines + tail_lines + 5) (length (lines_of normalized))
    then elide_lines head_lines tail_lines (lines_of normalized)
    else if ltb max_chars (length normalized)
    then elide_chars max_chars normalized
    else normalized

-- The last test of both branches: keep the new text only if it has fewer tokens.
unfoldable pub keep_if_smaller : Text → Text → CompressResult
unfolding unchanged replaced
keep_if_smaller text output =
    if leb (estimate_tokens text) (estimate_tokens output)
    then unchanged text
    else replaced text output

unfoldable pub compress_tool_output : Text → CompressOptions → CompressResult
unfolding unchanged keep_if_smaller shorten
compress_tool_output text options =
    let min_tokens = or_else options.min_tokens 96 in
    let max_chars = or_else options.max_chars 12000 in
    let head_lines = or_else options.head_lines 80 in
    let tail_lines = or_else options.tail_lines 40 in
    let normalized = collapse_newlines (strip_ansi text) in
    if ltb (estimate_tokens text) min_tokens
    then unchanged text
    else if leb (length normalized) max_chars
    then keep_if_smaller text normalized
    else keep_if_smaller text (shorten max_chars head_lines tail_lines normalized)
