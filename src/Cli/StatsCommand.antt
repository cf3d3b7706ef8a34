-- ===== src/Cli/StatsCommand.antt =====
-- packages/cli/src/stats-command.ts: the arguments of the command line and `ctxlite stats`.
pub mod Output
pub mod Outcomes
mod Tests
use ctxlite.Prelude.{
  ℕ, ◌-◌, ◌*◌, Bool, true, false, ◌&&◌, ◌||◌, not, Option, none, some, List, [], ◌∷◌, ◌++◌, map,
  Text, str, text_eq, length, any, starts_with, unlines, join, lower_unit, ◌==◌, if◌then◌else◌,
  ◌>>=◌, or_else,
}
use ctxlite.Stats.{Row}
use ctxlite.Stats.Summary.{Summary, summary, summary_for_session}
use ctxlite.Stats.Breakdown.{SessionRow, session_breakdown}
use ctxlite.Report.Sessions.{render_session_breakdown, render_session_breakdown_detailed}
use ctxlite.Cli.Format.{format_text}

unfoldable pub known_stats_hosts : List Text
known_stats_hosts = str "opencode" ∷ str "claude-code" ∷ str "cursor" ∷ str "mcp" ∷ []

-- `values.includes(value)`
unfoldable pub is_one_of : List Text → Text → Bool
unfolding any
is_one_of values value = any (λ v. text_eq v value) values

pub record Args : Type 0 where
  pub subcommand : Option Text
  pub rest : List Text
  pub last : Text
  pub export_format : Text
  pub db : Text
  pub by_session : Bool
  pub compact : Bool
  pub help : Bool
  pub host : Option Text

-- `defaultDbPath()` is `db`.
abbrev pub no_args : Text → Args
no_args db = record {
  subcommand = none;
  rest = [];
  last = str "all";
  export_format = str "text";
  db = db;
  by_session = false;
  compact = false;
  help = false;
  host = none;
}

-- `arg && !arg.startsWith("-")`
unfoldable pub is_positional : Text → Bool
is_positional arg = not (length arg == 0) && not (starts_with arg (str "-"))

unfoldable pub host_of_arg : Text → Text
unfolding is_one_of known_stats_hosts
host_of_arg arg =
    let lower = map lower_unit arg in if is_one_of known_stats_hosts lower then lower else arg

-- The three cases in front of the switch, `none` where the switch comes.
unfoldable pub take_arg : Text → List Text → Args → Option Args
unfolding is_positional host_of_arg
take_arg arg behind (args) = elim args.subcommand [
  | none ↦
      if is_positional arg
      then some (record args { subcommand = some arg; rest = behind })
      else none
  | some s ↦
      if text_eq s (str "stats")
      then if is_positional arg then some (record args { host = some (host_of_arg arg) }) else none
      else some args
]

-- The flags with a value.
unfoldable pub take_value : Text → Option Text → Text → Args → Option Args
take_value arg value default_db args =
    if text_eq arg (str "--last")
    then some (record args { last = or_else value (str "today") })
    else if text_eq arg (str "--export")
    then some (record args { export_format = or_else value (str "text") })
    else if text_eq arg (str "--db")
    then some (record args { db = or_else value default_db })
    else none

unfoldable pub take_flag : Text → Args → Args
take_flag arg args =
    if text_eq arg (str "--by-session")
    then record args { by_session = true }
    else if text_eq arg (str "--compact")
    then record args { compact = true }
    else if text_eq arg (str "--help") || text_eq arg (str "-h")
    then record args { help = true }
    else args

-- The loop; a flag with a value takes the next argument, whatever it is.
unfoldable pub parse_stats_from : Text → Args → List Text → Args
unfolding take_arg take_value take_flag
parse_stats_from db args [] = args
parse_stats_from db args (arg ∷ []) =
    or_else (take_arg arg [] args) (or_else (take_value arg none db args) (take_flag arg args))
parse_stats_from db args (arg ∷ value ∷ behind) = elim (take_arg arg (value ∷ behind) args) [
  | some taken ↦ parse_stats_from db taken (value ∷ behind)
  | none ↦ elim (take_value arg (some value) db args) [
    | some taken ↦ parse_stats_from db taken behind
    | none ↦ parse_stats_from db (take_flag arg args) (value ∷ behind)
  ]
]

unfoldable pub parse_args : Text → List Text → Args
unfolding parse_stats_from
parse_args default_db argv = parse_stats_from default_db (no_args default_db) argv

-- What the command takes from the machine: the clock, the last midnight, the texts of a date, the rows of
-- a table that opens, and the message of one that does not.
pub record StatsMachine : Type 0 where
  pub now : ℕ
  pub midnight : ℕ
  pub locale_date : ℕ → Text
  pub locale_time : ℕ → Text
  pub open_table : Text → Option (List Row)
  pub open_message : Text → Text

unfoldable pub valid_periods : List Text
valid_periods = str "session" ∷ str "today" ∷ str "7d" ∷ str "30d" ∷ str "all" ∷ []

unfoldable pub valid_formats : List Text
valid_formats = str "text" ∷ str "json" ∷ []

-- The start of a period; the clock is later than a month after 1970.
unfoldable pub period_to_timestamp : StatsMachine → Text → ℕ
period_to_timestamp m period =
    if text_eq period (str "session")
    then m.now - 3600
    else if text_eq period (str "7d")
    then m.now - 7 * 86400
    else if text_eq period (str "30d")
    then m.now - 30 * 86400
    else if text_eq period (str "all")
    then 0
    else m.midnight

-- What is printed: a text, or a value as JSON with an indentation.
pub data Printed : Type 0 where
  text : Text → Printed
  rows_json : List SessionRow → Printed
  entries_json : List (SessionRow × Summary) → Printed
  summary_json : Summary → Printed

-- The exit code, what goes to the standard output, and what goes to the error output.
pub record StatsRun : Type 0 where
  pub code : ℕ
  pub out : Option Printed
  pub err : Text

abbrev pub failed_run : Text → StatsRun
failed_run message = record { code = 1; out = none; err = message }

abbrev pub printed_run : Printed → StatsRun
printed_run p = record { code = 0; out = some p; err = [] }

unfoldable pub invalid_message : Text → Text → List Text → Text
unfolding join
invalid_message what value valid =
    what ++ (str " \"" ++ (value ++ (str "\". Valid: " ++ (join (str ", ") valid ++ str "\n"))))

-- The first of the three tests that fails.
unfoldable pub invalid_arg : Args → Option Text
unfolding valid_periods valid_formats known_stats_hosts is_one_of invalid_message
invalid_arg args =
    let host = args.host >>= λ h.
    if is_one_of known_stats_hosts h
    then none
    else some (invalid_message (str "Unrecognized host") h known_stats_hosts) in
    if not (is_one_of valid_periods args.last)
    then some (invalid_message (str "Invalid period") args.last valid_periods)
    else if not (is_one_of valid_formats args.export_format)
    then some (invalid_message (str "Invalid export format") args.export_format valid_formats)
    else host

unfoldable pub with_summaries : List Row → List SessionRow → List (SessionRow × Summary)
with_summaries table rows =
    map (λ (r : SessionRow). (r, summary_for_session r.host r.session_id table)) rows

abbrev pub ended : Text → Text
ended t = t ++ str "\n"

-- What is printed for the rows of the table, `none` where a chart throws.
unfoldable pub stats_output : StatsMachine → Args → List Row → Option Printed
unfolding with_summaries render_session_breakdown render_session_breakdown_detailed format_text
    summary session_breakdown period_to_timestamp
stats_output m args table =
    let since = period_to_timestamp m args.last in
    let json = text_eq args.export_format (str "json") in
    let rows = session_breakdown since args.host table in
    let entries = with_summaries table rows in
    let all_of = summary m.locale_date since args.host table in
    let compact_text =
      some (text (ended (unlines (render_session_breakdown m.locale_time rows)))) in
    let detailed_text = render_session_breakdown_detailed m.locale_time entries >>= λ lines.
    some (text (ended (unlines lines))) in
    let summary_text = format_text all_of args.host >>= λ t. some (text (ended t)) in
    if args.by_session && args.compact
    then if json then some (rows_json rows) else compact_text
    else if args.by_session
    then if json then some (entries_json entries) else detailed_text
    else if json
    then some (summary_json all_of)
    else summary_text

abbrev print_or_fail : Option Printed → StatsRun
print_or_fail none = failed_run (str "Error: Invalid count value")
print_or_fail (some p) = printed_run p

abbrev run_on : StatsMachine → Args → Option (List Row) → StatsRun
run_on m args none = failed_run (str "Error: " ++ (m.open_message args.db ++ str "\n"))
run_on m args (some table) = print_or_fail (stats_output m args table)

abbrev run_valid : StatsMachine → Args → Option Text → StatsRun
run_valid m args (some message) = failed_run message
run_valid m args none = run_on m args (m.open_table args.db)

unfoldable pub run_stats : StatsMachine → Args → StatsRun
unfolding invalid_arg stats_output
run_stats m args = run_valid m args (invalid_arg args)
