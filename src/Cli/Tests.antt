-- ===== src/Cli/Tests.antt =====
-- Runs of the hooks of Claude Code and Cursor (hook.ts, cursor-hook.ts).
use ctxlite.Prelude.{◌≡◌, refl, true, false, none, some, [], ◌∷◌, ◌++◌, str, starts_with}
use ctxlite.Json.{Json, num, string, obj, end, field}
use ctxlite.Host.{Host}
use ctxlite.Precall.Paths.{given}
use ctxlite.Precall.Tests.{precall}
use ctxlite.Install.Merge.{as_object, to_object}
use ctxlite.Stats.{Moment, Store}
use ctxlite.Cli.{
  claude_code, cursor, hook_output, normalize_tool_name, input_text, answer_precall,
  pre_tool_use_named, pre_tool_use,
}
use ctxlite.Cli.Answers.{IsAnswer, pre_tool_use-IsAnswer}

cli : Unit {0}
unfolding precall claude_code cursor hook_output normalize_tool_name answer_precall
    pre_tool_use_named pre_tool_use as_object to_object
cli = tt

abbrev now : Moment
now = record { now = 1000; fresh_id = str "1-a"; opens = true; throws = λ i. false }

abbrev empty : Store
empty = record { rows = []; log_failure_count = 0 }

abbrev project : Host
project = record {
  size_of = λ path. some 40000;
  content_of = λ path. none;
  join = λ dir path. dir ++ (str "/" ++ path);
  resolve = λ dir path. dir ++ (str "/" ++ path);
  is_absolute = λ path. starts_with path (str "/");
}

abbrev arguments : Json
arguments =
    obj
      (field (str "command") (string (str "npm test")) (field (str "timeout") (num (str "5")) end))

abbrev call : Json
call = obj (field (str "tool_name") (string (str "Bash")) (field (str "tool_input") arguments end))

-- The new input has the command alone: the time limit of the call is not in it.
timeout_is_lost :
    (pre_tool_use claude_code project (str "/app") now (some call) empty).0
    ≡ some (claude_code.update ((str "command", string (str "npm test --silent")) ∷ []))
unfolding cli
timeout_is_lost = refl

pre_tool_use-IsAnswer_example :
    IsAnswer cursor
      (given (input_text "tool_name" (some call)))
      empty
      (pre_tool_use cursor project (str "/app") now (some call) empty)
pre_tool_use-IsAnswer_example =
    pre_tool_use-IsAnswer cursor project (str "/app") now (some call) empty
