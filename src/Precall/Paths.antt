-- ===== src/Precall/Paths.antt =====
-- `optimizeReadPath` and `optimizeToolArgs`: which reads are stopped (tool-precall.ts).
pub mod Effects
pub mod Threshold
use ctxlite.Prelude.{
  ℕ, zero, suc, ◌+◌, ◌-◌, ◌*◌, ◌/◌, ◌%◌, ◌≤◌, ◌<◌, min, max, String, ◌≡◌, refl, sym, ap, ap₂, ◌∙◌,
  ◌≢◌, ◌↔◌, ◌⊎◌, inl, inr, Bool, true, false, ◌&&◌, ◌||◌, not, Option, none, some, List, [], ◌∷◌,
  ◌++◌, map, append_assoc, append-nil, map-append, arith, Text, str, text_eq, text_eq_iff,
  text_eq_refl, length, length-append, join, Dict, dict_get, dict_set, dict_delete, get-set,
  get-delete, or_else, slice, take, drop, filter_by, any, all, All, trim, trim_end, starts_with,
  ends_with, includes, ltb, leb, ◌==◌, if◌then◌else◌, Option-cases, Bool-cases, print_nat,
  round_seven_tenths,
}
use ctxlite.Json.{Json, string}
use ctxlite.Host.{Host}
use ctxlite.Regex.{Matcher, literal, ◌⨟◌, at_end, test}
use ctxlite.Ignore.{normalize, is_ignored, load_ignore_patterns}
use ctxlite.SmartRead.{is_eligible_for_smart_read}
use ctxlite.Precall.Bash.{PrecallResult, untouched, optimize_bash_command}

-- `BLOCKED_READ_PATTERNS`: four expressions for a part of the path, four for its end.
unfoldable pub blocked_parts : List Text
blocked_parts = str "node_modules/" ∷ str ".git/" ∷ str "/dist/" ∷ str "/build/" ∷ []

unfoldable pub blocked_ends : List Text
blocked_ends = str "package-lock.json" ∷ str "yarn.lock" ∷ str "pnpm-lock.yaml" ∷ str ".min.js" ∷ []

unfoldable pub is_low_signal : Text → Bool
is_low_signal normalized =
    any (includes normalized) blocked_parts || any (ends_with normalized) blocked_ends

-- `Math.ceil(statSync(path).size / 4)`, and 0 for an exception
unfoldable pub estimate_full_read_tokens : Host → Text → ℕ
estimate_full_read_tokens host path = elim (host.size_of path) [
  | none ↦ 0
  | some size ↦ (size + 3) / 4
]

unfoldable pub blocked_read : Text → Text → ℕ → PrecallResult
blocked_read path reason saved = record {
  args = (str "path", string path) ∷ [];
  modified = false;
  blocked = true;
  block_reason = some reason;
  estimated_tokens_saved = saved;
  label = none;
}

unfoldable pub low_signal_reason : Text → Text
low_signal_reason path = str "Blocked read of low-signal path: " ++ path

unfoldable pub large_file_reason : Text → Text
large_file_reason path =
    str "Blocked full read of \""
    ++ path
    ++ str "\": this file is large enough that smart_read "
    ++ str "(structure-only) is the ctxlite-preferred way to inspect it. Retry with "
    ++ str "smart_read on the same path. If you specifically need exact content to make "
    ++ str "an edit, use smart_read (or edit/write) on this path first — that unblocks a "
    ++ str "full read."

-- The options of a read, both false where they are not given.
pub record ReadOptions : Type 0 where
  pub has_edit_intent : Bool
  pub check_size_threshold : Bool

-- a directory that is given and not empty, as `if (cwd && …)` reads it
unfoldable pub given : Option Text → Option Text
given none = none
given (some []) = none
given (some (c ∷ cwd)) = some (c ∷ cwd)

unfoldable pub resolve : Host → Text → Text → Text
resolve host cwd path = if host.is_absolute path then path else host.join cwd path

-- the last two conditions, which need a directory
unfoldable pub read_in : Host → Option Text → Text → ReadOptions → PrecallResult
unfolding given
read_in host none path options = untouched ((str "path", string path) ∷ [])
read_in host (some cwd) path options =
    if is_ignored (normalize path) (load_ignore_patterns host cwd)
    then blocked_read path (low_signal_reason path) 2000
    else if (options.check_size_threshold && not options.has_edit_intent)
        && is_eligible_for_smart_read host (resolve host cwd path)
    then blocked_read path (large_file_reason path)
        (round_seven_tenths (estimate_full_read_tokens host (resolve host cwd path)))
    else untouched ((str "path", string path) ∷ [])

unfoldable pub optimize_read_path : Host → Text → Option Text → ReadOptions → PrecallResult
optimize_read_path host path cwd options =
    if is_low_signal (normalize path)
    then blocked_read path (low_signal_reason path) 2000
    else read_in host (given cwd) path options

-- an argument that is a string
unfoldable pub as_string : Option Json → Option Text
as_string none = none
as_string (some (string s)) = some s
as_string (some v) = none

unfoldable pub string_arg : Text → Dict Json → Option Text
string_arg k args = as_string (dict_get k args)

-- `a ? a : b`, for an argument that may be missing
abbrev pub or_next : Option Text → Option Text → Option Text
or_next none o = o
or_next (some t) o = some t

-- `extractPathArg`, the same conditions in both files
unfoldable pub path_arg : Dict Json → Option Text
path_arg args =
    or_next (string_arg (str "path") args)
      (or_next (string_arg (str "filePath") args) (string_arg (str "file_path") args))

abbrev read_options : Text → Bool → Bool → ReadOptions
read_options tool has_edit_intent enforce = record {
  has_edit_intent = has_edit_intent;
  check_size_threshold = enforce && text_eq tool (str "read");
}

-- the part for `read` and `glob`, for a path that is given and not empty
unfoldable pub optimize_path_tool :
    Host → Text → Dict Json → Option Text → Option Text → ReadOptions → PrecallResult
optimize_path_tool host tool args none cwd options = untouched args
optimize_path_tool host tool args (some path) cwd options =
    if text_eq tool (str "read") || text_eq tool (str "glob")
    then optimize_read_path host path cwd options
    else untouched args

-- the part for `bash` with a command that is a string, and the other tools
unfoldable pub optimize_command_or : Text → Option Text → PrecallResult → PrecallResult
optimize_command_or tool none other = other
optimize_command_or tool (some command) other =
    if text_eq tool (str "bash") then optimize_bash_command command else other

unfoldable pub optimize_tool_args :
    Host → Text → Dict Json → Option Text → Bool → Bool → PrecallResult
optimize_tool_args host tool args cwd has_edit_intent enforce =
    optimize_command_or tool (string_arg (str "command") args) (
      optimize_path_tool host tool args (given (path_arg args)) cwd
        (read_options tool has_edit_intent enforce))
