-- ===== src/Cli/StatsCommand/Tests.antt =====
-- Runs of the command line and of `ctxlite stats` (stats-command.ts).
use ctxlite.Prelude.{
  ◌≡◌, refl, some, [], ◌∷◌, str, text_eq, any, starts_with, join, lower_unit, print_nat,
}
use ctxlite.Cli.StatsCommand.{
  known_stats_hosts, is_one_of, no_args, is_positional, host_of_arg, take_arg, take_value,
  take_flag, parse_stats_from, parse_args, StatsMachine, valid_periods, valid_formats,
  invalid_message, invalid_arg, failed_run, run_stats,
}
use ctxlite.Cli.StatsCommand.Outcomes.{IsOutcome, run_stats-IsOutcome}
use ctxlite.Prelude.{true}

run : Unit {0}
unfolding str text_eq any starts_with join lower_unit known_stats_hosts is_one_of is_positional
    host_of_arg take_arg take_value take_flag parse_stats_from parse_args valid_periods
    valid_formats invalid_message invalid_arg run_stats
run = tt

-- Flags are known on both sides of the subcommand; a host is known in any case.
some_args :
    parse_args
      (str "stats.db")
      (str "--compact" ∷ str "stats" ∷ str "Cursor" ∷ str "--last" ∷ str "7d" ∷ [])
    ≡ record (no_args (str "stats.db")) {
      subcommand = some (str "stats");
      rest = str "Cursor" ∷ str "--last" ∷ str "7d" ∷ [];
      last = str "7d";
      compact = true;
      host = some (str "cursor");
    }
unfolding run
some_args = refl

-- The flags behind another subcommand are its own.
other_args :
    parse_args (str "stats.db") (str "install" ∷ str "--help" ∷ str "--last" ∷ [])
    ≡ record (no_args (str "stats.db")) {
      subcommand = some (str "install");
      rest = str "--help" ∷ str "--last" ∷ [];
    }
unfolding run
other_args = refl

abbrev machine : StatsMachine
machine = record {
  now = 5000000;
  midnight = 4990000;
  locale_date = print_nat;
  locale_time = print_nat;
  open_table = λ path. some [];
  open_message = λ path. str "no such file";
}

unknown_host :
    run_stats machine (parse_args (str "stats.db") (str "stats" ∷ str "vim" ∷ []))
    ≡ failed_run (str "Unrecognized host \"vim\". Valid: opencode, claude-code, cursor, mcp\n")
unfolding run
unknown_host = refl

run_stats-IsOutcome_example :
    IsOutcome machine (no_args (str "stats.db")) (run_stats machine (no_args (str "stats.db")))
run_stats-IsOutcome_example = run_stats-IsOutcome machine (no_args (str "stats.db"))
