-- ===== src/Mcp.antt =====
-- packages/mcp/src/tools: the tools of the server, which call the core and log what they save. The
-- protocol library checks the arguments before.
pub mod Logged
pub mod GetStats
mod Tests
use ctxlite.Prelude.{
  ℕ, ◌+◌, ◌-◌, ◌*◌, Bool, true, false, not, Option, none, some, List, [], ◌∷◌, ◌++◌, map, Text, str,
  text_eq, length, filter_by, any, ltb, ◌==◌, if◌then◌else◌, or_else, unlines, print_nat, ◌>>=◌,
  split_on,
}
use ctxlite.Runtime.{Runtime}
use ctxlite.Host.{Host}
use ctxlite.Ignore.{IgnorePattern, is_ignored, load_ignore_patterns}
use ctxlite.SmartRead.{last_of}
use ctxlite.Tokens.{estimate_tokens}
use ctxlite.Imports.{CodeFile}
use ctxlite.Trimmer.{TrimOptions, TrimResult, trim_defaults, trim_files}
use ctxlite.Stats.{Source, code_search, log_summary, diff_read, Moment, Store}
use ctxlite.Stats.Loggers.{OptimizationLog, TrimCounts, log_trim_result, log_optimization_savings}
use ctxlite.CodeSearch.{Directory}
use ctxlite.CodeSearch.Search.{
  CodeSearchOptions, CodeSearchResult, SearchOutcome, failed, found, search_defaults,
  search_codebase, format_code_search_output,
}
use ctxlite.LogSummary.{LogSummaryResult, summarize_log, max_input_bytes}
use ctxlite.DiffRead
use ctxlite.DiffRead.{
  DiffReadResult, DiffReadOutcome, diff_too_large, no_hunks, file_not_found, budget_too_small,
  max_diff_units, read,
}

-- `STATS_DB_PATH` is the path of the table; the process has one session.
pub record McpServer : Type 0 where
  pub host : Host
  pub cwd : Text
  pub moment : Moment
  pub session_id : Text

pub record TrimFile : Type 0 where
  pub path : Text
  pub content : Text
  pub language : Option Text

pub record TrimArgs : Type 0 where
  pub files : List TrimFile
  pub query : Text
  pub max_tokens : Option ℕ

unfoldable pub code_file_of : TrimFile → CodeFile
unfolding last_of split_on
code_file_of f = record {
  path = f.path;
  content = f.content;
  language = or_else f.language (last_of (split_on b'.' f.path));
  tokens = estimate_tokens f.content;
}

-- The files that no pattern ignores.
unfoldable pub candidate_files : McpServer → List TrimFile → List TrimFile
unfolding filter_by
candidate_files server files =
    filter_by
      (λ (f : TrimFile). not (is_ignored f.path (load_ignore_patterns server.host server.cwd)))
      files

abbrev file_line : CodeFile → Text
file_line f = str "- `" ++ (f.path ++ (str "` (" ++ (print_nat f.tokens ++ str " tokens)")))

unfoldable pub no_trimming_text : ℕ → ℕ → Text
unfolding unlines
no_trimming_text files tokens = unlines (
    str "## trim_context"
    ∷ []
    ∷ (str "All "
        ++ (print_nat files ++ str " files are relevant for this task — no trimming applied."))
    ∷ (str "Total tokens: " ++ print_nat tokens)
    ∷ [])

-- The files whose path is none of those that are selected.
unfoldable pub excluded_files : List CodeFile → List CodeFile → List CodeFile
unfolding filter_by any
excluded_files selected files =
    filter_by (λ (f : CodeFile). not (any (λ (s : CodeFile). text_eq s.path f.path) selected)) files

module _ (rt : Runtime) where
  open rt use {of_nat, mul, round, print}

  unfoldable pub trimming_text : List CodeFile → TrimResult rt → Text
  unfolding unlines excluded_files
  trimming_text files r = unlines (
      str "## trim_context result"
      ∷ []
      ∷ (str "**Selected** — "
          ++ (print_nat r.files_out
              ++ (str " of "
                  ++ (print_nat r.files_in
                      ++ (str " files, " ++ (print_nat r.tokens_out ++ str " tokens:"))))))
      ∷ unlines (map file_line r.files)
      ∷ []
      ∷ (str "**Excluded** — saved "
          ++ (print_nat r.tokens_saved
              ++ (str " tokens (-"
                  ++ (print (round (mul r.trim_ratio (of_nat 100))) ++ str "%):"))))
      ∷ unlines (map file_line (excluded_files r.files files))
      ∷ []
      ∷ str "_Include only the selected files in your next prompt to reduce token usage._"
      ∷ [])

  abbrev pub counts_of : TrimResult rt → TrimCounts
  counts_of r = record {
    tokens_in = r.tokens_in;
    tokens_out = r.tokens_out;
    tokens_saved = r.tokens_saved;
  }

  abbrev pub trim_answer : List CodeFile → TrimResult rt → Text
  trim_answer files r =
      if r.tokens_saved == 0
      then no_trimming_text (length files) r.tokens_in
      else trimming_text files r

  abbrev pub trim_context_options : TrimArgs → TrimOptions rt
  trim_context_options args = record (trim_defaults rt) {
    max_tokens = or_else args.max_tokens 4096;
  }

  unfoldable pub handle_trim_context : McpServer → TrimArgs → Store → Text × Store
  unfolding candidate_files code_file_of trim_files no_trimming_text trimming_text log_trim_result
  handle_trim_context server args store =
      let files = map code_file_of (candidate_files server args.files) in
      let r = trim_files rt files args.query (trim_context_options args) in
      (
        trim_answer files r,
        log_trim_result server.moment (counts_of r) (str "mcp") (some server.session_id) store,
      )

  pub record SearchArgs : Type 0 where
    pub query : Text
    pub max_results : Option ℕ
    pub snippet_budget : Option ℕ
    pub root : Option Text

  abbrev search_options : McpServer → SearchArgs → CodeSearchOptions rt
  search_options server args =
      record (search_defaults rt args.query (or_else args.root server.cwd)) {
        max_results = or_else args.max_results 5;
        snippet_budget = or_else args.snippet_budget 400;
      }

  abbrev search_log : McpServer → Text → Text → ℕ → OptimizationLog
  search_log server query output saved = record {
    source = code_search;
    upstream = query;
    tokens_in = estimate_tokens output + saved;
    tokens_out = estimate_tokens output;
    id = none;
    host = some (str "mcp");
    session_id = some server.session_id;
  }

  unfoldable pub search_answer : McpServer → SearchArgs → SearchOutcome rt → Store → Text × Store
  unfolding format_code_search_output log_optimization_savings
  search_answer server args (failed message) store = (str "code_search error: " ++ message, store)
  search_answer server args (found r) store =
      let output = format_code_search_output rt args.query r.hits in
      (
        output,
        if ltb 0 r.tokens_saved
            then log_optimization_savings server.moment
                (search_log server args.query output r.tokens_saved) store
            else store,
      )

  -- `none` where the search does not end
  unfoldable pub handle_code_search :
      McpServer → Directory → SearchArgs → Store → Option (Text × Store)
  unfolding search_answer search_codebase
  handle_code_search server tree args store =
      search_codebase rt server.host tree (search_options server args) >>= λ outcome.
      some (search_answer server args outcome store)

unfoldable pub log_summary_answer : McpServer → Option LogSummaryResult → Store → Text × Store
unfolding log_optimization_savings
log_summary_answer server none store = (
  str "log_summary error: log text exceeds max input size ("
      ++ (print_nat max_input_bytes ++ str " bytes)"),
  store,
)
log_summary_answer server (some r) store = (
  r.output,
  if ltb 0 r.tokens_saved
      then log_optimization_savings server.moment
          (record {
            source = log_summary;
            upstream = str "log_summary";
            tokens_in = r.tokens_in;
            tokens_out = r.tokens_out;
            id = none;
            host = some (str "mcp");
            session_id = some server.session_id;
          })
          store
      else store,
)

unfoldable pub handle_log_summary : McpServer → Text → Option ℕ → Store → Text × Store
unfolding log_summary_answer summarize_log
handle_log_summary server text budget store =
    log_summary_answer server (summarize_log text budget) store

-- The message of an error of `diffRead`.
unfoldable pub diff_read_answer : McpServer → Text → DiffReadOutcome → Store → Text × Store
unfolding log_optimization_savings
diff_read_answer server path diff_too_large store = (
  str "diff_read error: diff exceeds max input size ("
      ++ (print_nat max_diff_units ++ str " bytes)"),
  store,
)
diff_read_answer server path no_hunks store =
    (str "diff_read error: unparseable diff: no hunks found", store)
diff_read_answer server path file_not_found store =
    (str "diff_read error: file not found: " ++ path, store)
diff_read_answer server path budget_too_small store =
    (str "diff_read error: budget too small to include any hunks", store)
diff_read_answer server path (read r) store = (
  r.output,
  if ltb 0 r.tokens_saved
      then log_optimization_savings server.moment
          (record {
            source = diff_read;
            upstream = path;
            tokens_in = r.tokens_in;
            tokens_out = r.tokens_out;
            id = none;
            host = some (str "mcp");
            session_id = some server.session_id;
          })
          store
      else store,
)

unfoldable pub handle_diff_read :
    McpServer → Text → Text → Option ℕ → Option ℕ → Store → Text × Store
unfolding diff_read_answer DiffRead.diff_read
handle_diff_read server path diff context_lines budget store =
    diff_read_answer server path
      (DiffRead.diff_read server.host path diff context_lines budget server.cwd) store
