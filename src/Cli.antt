-- ===== src/Cli.antt =====
-- packages/cli/src: the hooks of Claude Code (hook.ts) and of Cursor (cursor-hook.ts); each is a
-- process that reads one JSON value and answers with one, or with nothing.
pub mod Answers
pub mod InstallCommand
pub mod Format
pub mod StatsCommand
mod Tests
use ctxlite.Prelude.{
  ℕ, zero, suc, ◌+◌, ◌-◌, ◌*◌, ◌/◌, ◌%◌, ◌≤◌, ◌<◌, min, max, String, ◌≡◌, refl, sym, ap, ap₂, ◌∙◌,
  ◌≢◌, ◌↔◌, ◌⊎◌, inl, inr, Bool, true, false, ◌&&◌, ◌||◌, not, Option, none, some, List, [], ◌∷◌,
  ◌++◌, map, append_assoc, append-nil, map-append, arith, Text, str, text_eq, text_eq_iff,
  text_eq_refl, length, length-append, join, Dict, dict_get, dict_set, dict_delete, get-set,
  get-delete, or_else, slice, take, drop, filter_by, any, all, All, trim, trim_end, starts_with,
  ends_with, includes, ltb, leb, ◌==◌, if◌then◌else◌, Option-cases, Bool-cases, print_nat,
  round_seven_tenths, lines_of, unlines, lower_unit, length-take, length-drop, take-append-drop,
}
use ctxlite.Json.{Json, null, bool, num, string, arr, obj}
use ctxlite.Host.{Host}
use ctxlite.Precall.Bash.{PrecallResult}
use ctxlite.Precall.Paths.{as_string, given, or_next, optimize_tool_args}
use ctxlite.Compress.{CompressResult}
use ctxlite.Grep.{compress_output_for_tool}
use ctxlite.Install.Merge.{as_object, object_or_empty, to_object}
use ctxlite.Stats.{Source, precall, compress, Moment, Store}
use ctxlite.Stats.Loggers.{OptimizationLog, log_optimization_savings}

-- What a hook writes and what it logs.
abbrev pub Answer : Type 0
Answer = Option Json × Store

-- an entry of the log, without an id
unfoldable pub cli_log : Source → Text → ℕ → ℕ → Text → Option Text → OptimizationLog
cli_log source upstream tokens_in tokens_out host session_id = record {
  source = source;
  upstream = upstream;
  tokens_in = tokens_in;
  tokens_out = tokens_out;
  id = none;
  host = some host;
  session_id = session_id;
}

-- `input.name` as a text: another value, like one that is missing, ends the hook without an answer
abbrev pub input_text : String → Option Json → Option Text
input_text name input = as_string (dict_get (str name) (object_or_empty input))

-- `input.tool_input ?? {}`: what is no object has no argument
abbrev pub tool_input : Option Json → Dict Json
tool_input input = object_or_empty (dict_get (str "tool_input") (object_or_empty input))

abbrev pub fallback_reason : Text
fallback_reason = str "Blocked by ctxlite pre-call filter."

-- What the two hosts have different: the name of the host, and the two answers.
pub record Dialect : Type 0 where
  pub host_name : Text
  pub session_field : String
  pub tool_from : Text → Text
  pub deny : Text → Json
  pub update : Dict Json → Json

unfoldable pub hook_output : Dict Json → Json
hook_output extra = to_object (
    (str "hookSpecificOutput", to_object ((str "hookEventName", string (str "PreToolUse")) ∷ extra))
    ∷ [])

unfoldable pub claude_code : Dialect
claude_code = record {
  host_name = str "claude-code";
  session_field = "session_id";
  tool_from = map lower_unit;
  deny = λ reason. hook_output (
      (str "permissionDecision", string (str "deny"))
      ∷ (str "permissionDecisionReason", string reason)
      ∷ []);
  update = λ args. hook_output ((str "updatedInput", to_object args) ∷ []);
}

-- `normalizeToolName`
unfoldable pub normalize_tool_name : Text → Text
normalize_tool_name name =
    let lower = map lower_unit name in if text_eq lower (str "shell") then str "bash" else lower

unfoldable pub cursor : Dialect
cursor = record {
  host_name = str "cursor";
  session_field = "conversation_id";
  tool_from = normalize_tool_name;
  deny = λ reason.
      to_object
        ((str "permission", string (str "deny")) ∷ (str "agent_message", string reason) ∷ []);
  update = λ args. to_object ((str "updated_input", to_object args) ∷ []);
}

unfoldable pub answer_precall :
    Dialect → Moment → Text → Option Text → PrecallResult → Store → Answer
answer_precall d m tool session_id r s =
    let logged =
      log_optimization_savings m
        (cli_log precall tool r.estimated_tokens_saved 0 d.host_name session_id) s in
    if r.blocked
    then (some (d.deny (or_else r.block_reason fallback_reason)), logged)
    else if r.modified
    then (some (d.update r.args), logged)
    else (none, s)

-- `runPreToolUseHook` and `runCursorPreToolUseHook`, for a name that is not empty
unfoldable pub pre_tool_use_named :
    Dialect → Host → Text → Moment → Option Json → Option Text → Store → Answer
pre_tool_use_named d host cwd m input none s = (none, s)
pre_tool_use_named d host cwd m input (some name) s =
    answer_precall d m (d.tool_from name) (input_text d.session_field input)
      (optimize_tool_args host (d.tool_from name) (tool_input input) (some cwd) false false) s

-- The input is `none` where it is no JSON.
unfoldable pub pre_tool_use : Dialect → Host → Text → Moment → Option Json → Store → Answer
pre_tool_use d host cwd m input s =
    pre_tool_use_named d host cwd m input (given (input_text "tool_name" input)) s

-- `textFromToolOutput`
unfoldable pub text_of_fields : Dict Json → Option Text
text_of_fields fields =
    or_next (as_string (dict_get (str "content") fields))
      (as_string (dict_get (str "stdout") fields))

abbrev text_of_object : Option (Dict Json) → Option Text
text_of_object none = none
text_of_object (some fields) = text_of_fields fields

unfoldable pub text_from_tool_output : Option Json → Option Text
text_from_tool_output output = or_next (as_string output) (text_of_object (as_object output))

-- `rebuildToolOutput`
abbrev rebuild_fields : Option Text → Dict Json → Text → Json
rebuild_fields (some content) fields new = to_object (dict_set (str "content") (string new) fields)
rebuild_fields none fields new = elim (as_string (dict_get (str "stdout") fields)) [
  | some stdout ↦ to_object (dict_set (str "stdout") (string new) fields)
  | none ↦ string new
]

abbrev rebuild_object : Option (Dict Json) → Text → Json
rebuild_object none new = string new
rebuild_object (some fields) new =
    rebuild_fields (as_string (dict_get (str "content") fields)) fields new

unfoldable pub rebuild_tool_output : Option Json → Text → Json
rebuild_tool_output original new = rebuild_object (as_object original) new

unfoldable pub answer_compress :
    Moment → Text → Option Text → Option Json → CompressResult → Store → Answer
answer_compress m tool session_id original r s =
    if r.compressed
    then (
      some (
          to_object (
            (
              str "hookSpecificOutput",
              to_object (
                  (str "hookEventName", string (str "PostToolUse"))
                  ∷ (str "updatedToolOutput", rebuild_tool_output original r.output)
                  ∷ []),
            )
            ∷ [])),
      log_optimization_savings m
          (cli_log compress (map lower_unit tool) r.tokens_in r.tokens_out (str "claude-code")
            session_id)
          s,
    )
    else (none, s)

unfoldable pub post_tool_use_text :
    Moment → Option Json → Text → Option Json → Option Text → Store → Answer
post_tool_use_text m input tool output none s = (none, s)
post_tool_use_text m input tool output (some text) s =
    answer_compress m tool (input_text "session_id" input) output
      (compress_output_for_tool tool text) s

-- `input.tool_name ?? ""`, which has to be a text
unfoldable pub name_or_empty : Option Json → Option Text
name_or_empty none = some []
name_or_empty (some null) = some []
name_or_empty (some (string name)) = some name
name_or_empty (some v) = none

unfoldable pub post_tool_use_named : Moment → Option Json → Option Text → Store → Answer
post_tool_use_named m input none s = (none, s)
post_tool_use_named m input (some tool) s =
    let output = dict_get (str "tool_output") (object_or_empty input) in
    post_tool_use_text m input tool output (text_from_tool_output output) s

-- `runPostToolUseHook`
unfoldable pub post_tool_use : Moment → Option Json → Store → Answer
post_tool_use m input s =
    post_tool_use_named m input (name_or_empty (dict_get (str "tool_name") (object_or_empty input)))
      s
