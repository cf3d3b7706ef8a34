-- ===== src/Opencode/Tests.antt =====
-- Runs of the plugin's hooks (packages/opencode/src).
use ctxlite.Prelude.{
  ◌≡◌, refl, ◌≢◌, true, false, none, some, [], ◌∷◌, ◌++◌, arith, Text, str, text_eq, text_eq_iff,
  dict_get, dict_set, dict_delete, any, all, starts_with,
}
use ctxlite.Json.{string}
use ctxlite.Host.{Host}
use ctxlite.Precall.Paths.{path_arg, string_arg, as_string}
use ctxlite.Precall.Paths.Effects.{with_sizes}
use ctxlite.Stats.{Moment}
use ctxlite.Stats.Log.{IsTable, has_unique_ids}
use ctxlite.Opencode.{
  PrecallPending, Plugin, key, mark_precall_pending, take_precall_pending, mark_path_engaged,
  has_path_engagement, has_path, add_path,
}
use ctxlite.Tokens.{estimate_conciseness_savings}
use ctxlite.Stats.Tests.{stats}
use ctxlite.Stats.Loggers.{log_conciseness_savings}
use ctxlite.Opencode.Events.{
  Event, Tracker, is_completed_turn, log_turn, total_saved, toast_of, report_turn, on_event,
  IsTracked, on_event-IsReported,
}
use ctxlite.Opencode.Hooks.{
  ToolCall, BeforeOutput, tool_precall_hook, tool_compress_hook, compress_skips,
}
use ctxlite.Opencode.Pending.{has_no_colon, take-mark}
use ctxlite.Opencode.Engaged.{tool_precall_hook-engaged}
use ctxlite.Opencode.Runs.{before, after, start, next, IsSound, Reachable-IsSound}

plugin : Unit {0}
unfolding key mark_precall_pending take_precall_pending mark_path_engaged has_path_engagement
    has_path add_path has_no_colon path_arg string_arg as_string tool_compress_hook compress_skips
    any all str text_eq dict_get dict_set dict_delete
plugin = tt

abbrev now : Moment
now = record { now = 1000; fresh_id = str "1-a"; opens = true; throws = λ i. false }

abbrev fresh : Plugin
fresh = record {
  pending = [];
  engaged_paths = [];
  store = record { rows = []; log_failure_count = 0 };
}

abbrev quiet : PrecallPending
quiet = record { estimated_tokens_saved = 800; label = some (str "npm_test") }

abbrev call : ToolCall
call = record { tool = str "bash"; session_id = str "s1"; call_id = str "c1" }

abbrev marked : Plugin
marked = mark_precall_pending (str "s1") (str "c1") quiet fresh

-- A command that prints nothing leaves its entry behind: the hook returns before it takes it.
silent_command_is_not_logged : (tool_compress_hook now now call [] marked).1 ≡ marked
unfolding plugin
silent_command_is_not_logged = refl

-- Two calls of different sessions have one key where a session id has a colon.
keys_collide : key (str "a:b") (str "c") ≡ key (str "a") (str "b:c")
unfolding plugin
keys_collide = refl

s1-no_colon : has_no_colon (str "s1") ≡ true
unfolding plugin
s1-no_colon = refl

text_ne : (s t : Text) → text_eq s t ≡ false → s ≢ t
text_ne s t h e = ground (arith, text_eq_iff s t)

calls_differ : ¬ ((str "s1" ≡ str "s1") × (str "c1" ≡ str "c2"))
calls_differ (a, b) = text_ne (str "c1") (str "c2") (unfold plugin in refl) b

take-mark_example :
    let (taken, q) = take_precall_pending (str "s1") (str "c1") marked in
    (taken ≡ some quiet)
    × ((take_precall_pending (str "s1") (str "c1") q).0 ≡ none)
    × ((take_precall_pending (str "s1") (str "c2") q).0
        ≡ (take_precall_pending (str "s1") (str "c2") fresh).0)
take-mark_example =
    take-mark (str "s1") (str "c1") (str "s1") (str "c2") quiet fresh s1-no_colon s1-no_colon
      calls_differ

-- A project with one large file.
abbrev project : Host
project = record {
  size_of = λ path. some 40000;
  content_of = λ path. none;
  join = λ dir path. dir ++ (str "/" ++ path);
  resolve = λ dir path. dir ++ (str "/" ++ path);
  is_absolute = λ path. starts_with path (str "/");
}

abbrev read : ToolCall
read = record { tool = str "read"; session_id = str "s1"; call_id = str "c2" }

abbrev main_file : BeforeOutput
main_file = record { args = (str "filePath", string (str "main.ts")) ∷ []; result = none }

abbrev engaged : Plugin
engaged = mark_path_engaged (str "s1") (str "main.ts") fresh

main_file-path : path_arg main_file.args ≡ some (str "main.ts")
unfolding plugin
main_file-path = refl

engaged-main : has_path_engagement (str "s1") (str "main.ts") engaged ≡ true
unfolding plugin
engaged-main = refl

tool_precall_hook-engaged_example :
    tool_precall_hook (with_sizes (λ path. none) project) (str "/app") now read main_file engaged
    ≡ tool_precall_hook project (str "/app") now read main_file engaged
tool_precall_hook-engaged_example =
    tool_precall_hook-engaged project (λ path. none) (str "/app") now read main_file engaged
      (str "main.ts") main_file-path engaged-main

empty-IsTable : IsTable fresh.store.rows
unfolding has_unique_ids
empty-IsTable = record { unique = refl; savings = tt }

Reachable-IsSound_example :
    IsSound
      (tool_compress_hook now now read
        (str "text")
        (tool_precall_hook project (str "/app") now read main_file fresh).1).1
Reachable-IsSound_example =
    Reachable-IsSound
      (tool_compress_hook now now read (str "text")
        (tool_precall_hook project (str "/app") now read main_file fresh).1).1
      (next
        (next (start fresh.store empty-IsTable) (before project (str "/app") now read main_file))
        (after now now read (str "text")))

abbrev turn : Event
turn = record {
  type = str "message.updated";
  role = str "assistant";
  completed = true;
  id = str "m1";
  provider_id = str "openai";
  session_id = str "s1";
  input = 900;
  output = 400;
  reasoning = 0;
}

abbrev tracked : Tracker
tracked = record { last_totals = (str "s1", 20) ∷ []; store = fresh.store }

events : Unit {0}
unfolding on_event is_completed_turn report_turn toast_of log_turn total_saved stats dict_get
    dict_set estimate_conciseness_savings log_conciseness_savings
events = tt

-- The turn has saved 15 % of 400 tokens, of which 40 are more than before.
turn_is_told :
    ((on_event now now now true turn tracked).0 ≡ some (record { delta = 40; total = 60 }))
    × ((on_event now now now true turn (record tracked { last_totals = [] })).0 ≡ none)
unfolding events
turn_is_told = (refl, refl)

on_event-IsReported_example :
    let (toast, u) = on_event now now now true turn tracked in
    IsTracked now true turn tracked toast u
on_event-IsReported_example = on_event-IsReported now now now true turn tracked
