-- ===== src/Precall/Tests.antt =====
-- Runs of the rewriting of tool arguments (tool-precall.ts, ctxliteignore.ts, smart-read.ts).
use ctxlite.Prelude.{
  ◌≡◌, refl, Bool, true, false, none, some, [], ◌∷◌, ◌++◌, Text, str, text_eq, dict_get, any, trim,
  trim_end, starts_with, ends_with, includes, if◌then◌else◌, round_seven_tenths,
}
use ctxlite.Json.{string}
use ctxlite.Host.{Host}
use ctxlite.Regex.{expressions}
use ctxlite.Ignore.{
  is_ignored, load_ignore_patterns, glob_tokens, compile_pattern, anchored, patterns_of_lines,
}
use ctxlite.SmartRead.{
  extension_of, is_eligible_for_smart_read, grammar_for_path, grammar_for_extension,
  supports_symbols,
}
use ctxlite.Precall.Skeleton.{strip_embedded_text}
use ctxlite.Precall.Split.{split_top_level}
use ctxlite.Precall.Split.Operators.{IsSplit, split_top_level-IsSplit}
use ctxlite.Precall.Rules.{
  match_quiet_pattern, quiet_rules, first_rule, apply_rule, has_flag, append_flag,
}
use ctxlite.Precall.Bash.{
  PrecallResult, optimize_bash_command, rewrite_segments, rewrite_segment, precall_estimate,
}
use ctxlite.Precall.Bash.Pieces.{IsRewritten, with_command, optimize_bash_command_in_place}
use ctxlite.Precall.Paths.{
  optimize_tool_args, optimize_read_path, optimize_command_or, string_arg, as_string,
  optimize_path_tool, given, path_arg, is_low_signal, blocked_parts, blocked_ends, read_in, resolve,
  blocked_read, estimate_full_read_tokens,
}
use ctxlite.Prelude.{lines_of}
use ctxlite.Precall.Paths.Threshold.{large_read, with_sizes, optimize_tool_args-threshold}
use ctxlite.Precall.Paths.Effects.{IsEffect, optimize_tool_args-IsEffect}
use ctxlite.Prelude.{lower_unit}
use ctxlite.Prelude.{◌&&◌}
use ctxlite.Prelude.{not}

unfoldable pub precall : Unit {0}
unfolding optimize_bash_command rewrite_segments rewrite_segment precall_estimate
    match_quiet_pattern quiet_rules first_rule apply_rule has_flag append_flag strip_embedded_text
    split_top_level expressions str includes ends_with trim trim_end is_ignored load_ignore_patterns
    glob_tokens compile_pattern anchored patterns_of_lines extension_of is_eligible_for_smart_read
    grammar_for_path grammar_for_extension supports_symbols optimize_tool_args optimize_read_path
    lower_unit any text_eq optimize_command_or string_arg as_string dict_get optimize_path_tool
    given path_arg is_low_signal blocked_parts blocked_ends read_in lines_of resolve blocked_read
    round_seven_tenths estimate_full_read_tokens
precall = tt

tests_are_quiet :
    (optimize_bash_command (str "cd app && npm test | tail -15")).args
    ≡ with_command (str "cd app && npm test --silent| tail -15")
unfolding precall
tests_are_quiet = refl

quotes_are_kept : (optimize_bash_command (str "git commit -m 'fix npm test'")).modified ≡ false
unfolding precall
quotes_are_kept = refl

-- A line end is no separator, so that the flag stands behind the next command.
flag_in_the_next_line :
    (optimize_bash_command (str "npm test" ++ 10 ∷ str "echo hi")).args
    ≡ with_command (str "npm test" ++ 10 ∷ str "echo hi --silent")
unfolding precall
flag_in_the_next_line = refl

abbrev pipeline : Text
pipeline = str "cd app && npm test | tail -15"

split_top_level-IsSplit_example : IsSplit pipeline 0 (split_top_level pipeline)
split_top_level-IsSplit_example = split_top_level-IsSplit pipeline

optimize_bash_command_in_place_example : IsRewritten pipeline (optimize_bash_command pipeline).args
optimize_bash_command_in_place_example = optimize_bash_command_in_place pipeline

-- A project with one large file and the pattern `*.log`.
abbrev project : Host
project = record {
  size_of = λ path. if text_eq path (str "/app/src/main.ts") then some 20001 else none;
  content_of = λ path.
      if text_eq path (str "/app/.ctxliteignore")
      then some (str "# logs" ++ 10 ∷ str "*.log")
      else none;
  join = λ dir path. dir ++ (str "/" ++ path);
  resolve = λ dir path. dir ++ (str "/" ++ path);
  is_absolute = λ path. starts_with path (str "/");
}

abbrev read_of : Text → Bool → PrecallResult
read_of path enforce =
    optimize_tool_args project (str "read") ((str "filePath", string path) ∷ []) (some (str "/app"))
      false enforce

reads :
    ((read_of (str "src/main.ts") true).estimated_tokens_saved ≡ 3501)
    × ((read_of (str "src/main.ts") false).blocked ≡ false)
    × ((read_of (str "out/a.log") false).blocked ≡ true)
    × ((read_of (str "a\\node_modules\\b.js") false).blocked ≡ true)
unfolding precall
reads = (refl, refl, refl, refl)

optimize_tool_args-IsEffect_example :
    IsEffect
      (str "read")
      ((str "filePath", string (str "src/main.ts")) ∷ [])
      (read_of (str "src/main.ts") true)
optimize_tool_args-IsEffect_example =
    optimize_tool_args-IsEffect project (str "read")
      ((str "filePath", string (str "src/main.ts")) ∷ []) (some (str "/app")) false true

optimize_tool_args-threshold_example :
    read_of (str "src/main.ts") true
    ≡ with_sizes
        ((true && text_eq (str "read") (str "read")) && not false)
        (large_read project
          (given (some (str "/app")))
          (given (path_arg ((str "filePath", string (str "src/main.ts")) ∷ []))))
        (optimize_tool_args project
          (str "read")
          ((str "filePath", string (str "src/main.ts")) ∷ [])
          (some (str "/app"))
          true
          false)
optimize_tool_args-threshold_example =
    optimize_tool_args-threshold project (str "read")
      ((str "filePath", string (str "src/main.ts")) ∷ []) (some (str "/app")) false true
