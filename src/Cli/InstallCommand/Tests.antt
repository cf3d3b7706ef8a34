-- ===== src/Cli/InstallCommand/Tests.antt =====
-- Runs of `ctxlite install` (packages/cli/src/install.ts).
use ctxlite.Prelude.{
  ◌≡◌, refl, ◌⊎◌, true, false, none, some, [], ◌∷◌, str, text_eq, split_on, filter_by, trim,
}
use ctxlite.Install.Paths.{InstallTool, Machine, linux, ok, error, project, unknown_tool}
use ctxlite.Install.ParseTools.{parse_tools, tool_values, tools_of_values}
use ctxlite.Install.Refresh.{Shell}
use ctxlite.Cli.InstallCommand.{
  Terminal, parse_install_args, parse_scope, takes_value, apply_option, default_args,
  run_install_command,
}
use ctxlite.Cli.InstallCommand.Confirmed.{IsConfirmed, IsKept, run_install_command-IsConfirmed}

abbrev machine : Machine
machine = record {
  home_dir = str "/home/ann";
  cwd = str "/work";
  platform = linux;
  app_data = none;
}

arguments :
    (parse_install_args machine
        (str "--tool" ∷ str "opencode, opencode" ∷ str "--scope" ∷ str "project" ∷ str "-y" ∷ [])
      ≡ ok (record {
        tools = some (InstallTool.opencode ∷ []);
        scope = project;
        project_dir = str "/work";
        confirmed = true;
        dry_run = false;
        removing = false;
        help = false;
      }))
    × (parse_install_args machine (str "--tool" ∷ str "cursor" ∷ [])
        ≡ error (unknown_tool (str "cursor")))
unfolding parse_install_args parse_scope takes_value apply_option default_args parse_tools
    tool_values tools_of_values text_eq str split_on filter_by trim
arguments = (refl, refl)

-- A terminal that nobody sits at, and a shell that runs what it is given.
abbrev silent : Terminal
silent = record { is_tty = false; chosen_tools = none; chosen_scope = none; agrees = false }

abbrev shell : Shell
shell program args = none

run_install_command-IsConfirmed_example :
    IsKept machine shell silent []
      (str "--tool" ∷ str "all" ∷ str "--yes" ∷ [])
      (run_install_command machine shell silent (str "--tool" ∷ str "all" ∷ str "--yes" ∷ []) [])
    ⊎ IsConfirmed machine shell silent []
        (str "--tool" ∷ str "all" ∷ str "--yes" ∷ [])
        (run_install_command machine shell silent (str "--tool" ∷ str "all" ∷ str "--yes" ∷ []) [])
run_install_command-IsConfirmed_example =
    run_install_command-IsConfirmed machine shell silent []
      (str "--tool" ∷ str "all" ∷ str "--yes" ∷ [])
