-- ===== src/Opencode/Hooks.antt =====
-- The three hooks (tool-precall-hook.ts, tool-compress-hook.ts, messages-transform-hook.ts).
use ctxlite.Prelude.{
  ℕ, Bool, true, false, ◌&&◌, ◌||◌, not, Option, none, some, List, [], ◌∷◌, ◌++◌, map, Text, str,
  text_eq, Dict, dict_set, or_else, any, ltb, if◌then◌else◌, is_positive, print_nat,
}
use ctxlite.Json.{Json}
use ctxlite.Host.{Host}
use ctxlite.Precall.Bash.{PrecallResult}
use ctxlite.Precall.Paths.{given, path_arg, optimize_tool_args}
use ctxlite.Compress.{CompressResult}
use ctxlite.Grep.{compress_output_for_tool}
use ctxlite.Context.Sweep.{Message, Counts}
use ctxlite.Context.Prune.{prune_message_context}
use ctxlite.Context.Cap.{cap_stale_tool_outputs, stale_output_max_tokens}
use ctxlite.Stats.{Source, precall, compress, prune, compact, Moment}
use ctxlite.Stats.Loggers.{OptimizationLog, log_optimization_savings}
use ctxlite.Opencode.{
  PrecallPending, Plugin, mark_precall_pending, take_precall_pending, mark_path_engaged,
  has_path_engagement,
}

-- `input` of the tool hooks
pub record ToolCall : Type 0 where
  pub tool : Text
  pub session_id : Text
  pub call_id : Text

unfoldable pub is_edit_like : Text → Bool
is_edit_like tool =
    any (text_eq tool) (str "edit" ∷ str "write" ∷ str "patch" ∷ str "multiedit" ∷ [])

-- the tools that mark their path
unfoldable pub is_engaging : Text → Bool
is_engaging tool = text_eq tool (str "smart_read") || is_edit_like tool

-- `SKIP_TOOLS` of the precall hook and of the compress hook
unfoldable pub precall_skips : Text → Bool
precall_skips tool =
    any (text_eq tool)
      (str "get_stats" ∷ str "trim_context" ∷ str "smart_read" ∷ str "concise_reply" ∷ [])

unfoldable pub compress_skips : Text → Bool
compress_skips tool =
    any (text_eq tool) (str "get_stats" ∷ str "trim_context" ∷ str "smart_read" ∷ [])

-- an entry of the log that the plugin writes
unfoldable pub plugin_log : Source → Text → ℕ → ℕ → Text → Option Text → OptimizationLog
plugin_log source upstream tokens_in tokens_out id session_id = record {
  source = source;
  upstream = upstream;
  tokens_in = tokens_in;
  tokens_out = tokens_out;
  id = some id;
  host = some (str "opencode");
  session_id = session_id;
}

unfoldable pub log_to : Moment → OptimizationLog → Plugin → Plugin
log_to m entry p = record p { store = log_optimization_savings m entry p.store }

-- the part of `output` that the precall hook reads and writes
pub record BeforeOutput : Type 0 where
  pub args : Dict Json
  pub result : Option Text

-- the first block of the hook
unfoldable pub engage : ToolCall → Option Text → Plugin → Plugin
engage c none p = p
engage c (some path) p = if is_engaging c.tool then mark_path_engaged c.session_id path p else p

-- `readPath !== null && hasPathEngagement(…)`
unfoldable pub has_edit_intent : ToolCall → Option Text → Plugin → Bool
has_edit_intent c none p = false
has_edit_intent c (some path) p = has_path_engagement c.session_id path p

-- `Object.assign(args, changes)`
unfoldable pub assign : Dict Json → Dict Json → Dict Json
assign args [] = args
assign args ((k, v) ∷ changes) = assign (dict_set k v args) changes

unfoldable pub apply_precall :
    Moment → ToolCall → BeforeOutput → PrecallResult → Plugin → BeforeOutput × Plugin
apply_precall m c output r p =
    if r.blocked
    then (
      record output {
        result = some (
            str "[ctxlite] " ++ or_else r.block_reason (str "Blocked by ctxlite pre-call filter."));
      },
      log_to m
          (plugin_log precall c.tool r.estimated_tokens_saved 0 (str "precall-block-" ++ c.call_id)
            (some c.session_id))
          p,
    )
    else if not r.modified
    then (output, p)
    else (
      record output { args = assign output.args r.args },
      mark_precall_pending c.session_id c.call_id
          (record { estimated_tokens_saved = r.estimated_tokens_saved; label = r.label }) p,
    )

unfoldable pub tool_precall_hook :
    Host → Text → Moment → ToolCall → BeforeOutput → Plugin → BeforeOutput × Plugin
tool_precall_hook host cwd m c output p =
    let q = engage c (given (path_arg output.args)) p in
    let r =
      optimize_tool_args host c.tool output.args (some cwd)
        (has_edit_intent c (path_arg output.args) q) true in
    if precall_skips c.tool then (output, q) else apply_precall m c output r q

-- the savings of the rewriting before, where there are any
unfoldable pub log_pending : Moment → ToolCall → Option PrecallPending → Plugin → Plugin
log_pending m c none p = p
log_pending m c (some entry) p =
    if ltb 0 entry.estimated_tokens_saved
    then log_to m
        (plugin_log precall c.tool entry.estimated_tokens_saved 0 (str "precall-" ++ c.call_id)
          (some c.session_id))
        p
    else p

unfoldable pub apply_compress : Moment → ToolCall → Text → CompressResult → Plugin → Text × Plugin
apply_compress m c output r p = if not r.compressed then (output, p) else (
  r.output,
  log_to m
      (plugin_log compress c.tool r.tokens_in r.tokens_out (str "compress-" ++ c.call_id)
        (some c.session_id))
      p,
)

-- The hook for `output.output`; the two moments are those of its two writes.
unfoldable pub tool_compress_hook : Moment → Moment → ToolCall → Text → Plugin → Text × Plugin
tool_compress_hook m n c output p =
    let (entry, q) = take_precall_pending c.session_id c.call_id p in
    if compress_skips c.tool || text_eq output []
    then (output, p)
    else apply_compress n c output (compress_output_for_tool c.tool output)
        (log_pending m c entry q)

-- a message and `info.sessionID`
pub record TransformMessage : Type 0 where
  pub message : Message
  pub session_id : Option Text

-- `messages.at(-1)?.info?.sessionID`
unfoldable pub last_session : List TransformMessage → Option Text
last_session [] = none
last_session (x ∷ []) = x.session_id
last_session (x ∷ y ∷ xs) = last_session (y ∷ xs)

-- a pass is logged if it has changed something and saved something
unfoldable pub log_pass : Moment → Source → Text → Option Text → Counts → Plugin → Plugin
log_pass m source name session_id counts p =
    if ltb 0 counts.count && is_positive counts.tokens_saved
    then log_to m
        (plugin_log source (str "opencode") counts.tokens_in counts.tokens_out
          (name ++ print_nat m.now ++ str "-" ++ print_nat counts.count) session_id)
        p
    else p

unfoldable pub messages_transform_hook :
    Moment → Moment → List TransformMessage → Plugin → List Message × Plugin
messages_transform_hook m n messages p =
    let session_id = last_session messages in
    let (pruned, prune_counts) = prune_message_context (map (λ x. x.message) messages) in
    let (capped, cap_counts) = cap_stale_tool_outputs pruned stale_output_max_tokens in
    (
      capped,
      log_pass n compact (str "compact-") session_id cap_counts
          (log_pass m prune (str "prune-") session_id prune_counts p),
    )
