-- ===== src/Cli/InstallCommand.antt =====
-- packages/cli/src/install.ts: the arguments of `ctxlite install` and what the command does to the disk.
-- The answers to its prompts are parameters; what it prints is left out.
pub mod Confirmed
mod Tests
use ctxlite.Prelude.{
  ℕ, Bool, true, false, ◌&&◌, ◌||◌, not, Option, none, some, List, [], ◌∷◌, Text, str, text_eq,
  or_else, any, if◌then◌else◌,
}
use ctxlite.Install.Paths.{
  InstallTool, InstallScope, Machine, Result, ok, error, global, project, unknown_option,
  invalid_scope,
}
use ctxlite.Install.Targets.{then_do}
use ctxlite.Install.Run.{Disk, InstallOptions, InstallPlanItem, plan_install, run_install}
use ctxlite.Install.ParseTools.{parse_tools}
use ctxlite.Install.Refresh.{Shell, OpenCodeRefreshResult, refresh_open_code_plugin}

pub record InstallArgs : Type 0 where
  pub tools : Option (List InstallTool)
  pub scope : InstallScope
  pub project_dir : Text
  pub confirmed : Bool
  pub dry_run : Bool
  pub removing : Bool
  pub help : Bool

unfoldable pub default_args : Machine → InstallArgs
default_args m = record {
  tools = none;
  scope = global;
  project_dir = m.cwd;
  confirmed = false;
  dry_run = false;
  removing = false;
  help = false;
}

unfoldable pub parse_scope : Option Text → Result InstallScope
parse_scope none = error (invalid_scope none)
parse_scope (some value) =
    if text_eq value (str "global")
    then ok global
    else if text_eq value (str "project")
    then ok project
    else error (invalid_scope (some value))

-- the options that take the argument behind them
unfoldable pub takes_value : Text → Bool
takes_value arg =
    text_eq arg (str "--tool") || text_eq arg (str "--scope") || text_eq arg (str "--project-dir")

-- The `switch` of `parseInstallArgs`, with the argument behind an option that takes one.
unfoldable pub apply_option : Machine → Text → Option Text → InstallArgs → Result InstallArgs
apply_option m arg value args =
    if text_eq arg (str "--tool")
    then then_do (parse_tools value) (λ tools. ok (record args { tools = some tools }))
    else if text_eq arg (str "--scope")
    then then_do (parse_scope value) (λ scope. ok (record args { scope = scope }))
    else if text_eq arg (str "--project-dir")
    then ok (record args { project_dir = or_else value m.cwd })
    else if text_eq arg (str "--yes") || text_eq arg (str "-y")
    then ok (record args { confirmed = true })
    else if text_eq arg (str "--dry-run")
    then ok (record args { dry_run = true })
    else if text_eq arg (str "--remove")
    then ok (record args { removing = true })
    else if text_eq arg (str "--help") || text_eq arg (str "-h")
    then ok (record args { help = true })
    else error (unknown_option arg)

unfoldable pub parse_from : Machine → List Text → InstallArgs → Result InstallArgs
parse_from m [] args = ok args
parse_from m (arg ∷ []) args = apply_option m arg none args
parse_from m (arg ∷ value ∷ rest) args = elim (takes_value arg) [
  | true ↦ then_do (apply_option m arg (some value) args) (λ next. parse_from m rest next)
  | false ↦ then_do (apply_option m arg none args) (λ next. parse_from m (value ∷ rest) next)
]

unfoldable pub parse_install_args : Machine → List Text → Result InstallArgs
unfolding parse_from
parse_install_args m argv = parse_from m argv (default_args m)

-- Whether the input is a terminal, and what is answered there; none is an exception.
pub record Terminal : Type 0 where
  pub is_tty : Bool
  pub chosen_tools : Option (List InstallTool)
  pub chosen_scope : Option InstallScope
  pub agrees : Bool

-- How the command ends: with an exit code, or by an exception.
pub data Ending : Type 0 where
  exits : ℕ → Ending
  throws : Ending

pub record Outcome : Type 0 where
  pub ending : Ending
  pub disk : Disk
  pub refresh : Option OpenCodeRefreshResult

abbrev pub ends : Ending → Disk → Outcome
ends ending disk = record { ending = ending; disk = disk; refresh = none }

unfoldable pub options_of : InstallArgs → List InstallTool → InstallScope → InstallOptions
options_of args tools scope = record {
  tools = tools;
  scope = scope;
  project_dir = some args.project_dir;
  home_dir = none;
  dry_run = false;
  removing = args.removing;
}

-- `tools.includes("opencode")`
abbrev pub is_open_code : InstallTool → Bool
is_open_code InstallTool.opencode = true
is_open_code tool = false

-- behind `runInstall`
unfoldable pub finish_install :
    Machine
    → Shell
    → InstallArgs
    → List InstallTool
    → InstallScope
    → Result (List InstallPlanItem) × Disk
    → Outcome
finish_install m shell args tools scope (error e, disk) = ends throws disk
finish_install m shell args tools scope (ok items, disk) =
    if not args.removing && any is_open_code tools
    then record {
      ending = exits 0;
      disk = disk;
      refresh = some (refresh_open_code_plugin m shell scope m.home_dir);
    }
    else ends (exits 0) disk

-- behind the plan, which has not thrown
unfoldable pub confirm_and_run :
    Machine → Shell → Terminal → InstallArgs → List InstallTool → InstallScope → Disk → Outcome
unfolding finish_install options_of
confirm_and_run m shell term args tools scope disk =
    if args.dry_run
    then ends (exits 0) disk
    else if not args.confirmed && not term.is_tty
    then ends (exits 1) disk
    else if not args.confirmed && not term.agrees
    then ends (exits 0) disk
    else finish_install m shell args tools scope (run_install m disk (options_of args tools scope))

abbrev pub after_plan :
    Machine
    → Shell
    → Terminal
    → InstallArgs
    → List InstallTool
    → InstallScope
    → Disk
    → Result (List InstallPlanItem)
    → Outcome
after_plan m shell term args tools scope disk (error e) = ends throws disk
after_plan m shell term args tools scope disk (ok plan) =
    confirm_and_run m shell term args tools scope disk

unfoldable pub plan_and_run :
    Machine → Shell → Terminal → InstallArgs → List InstallTool → InstallScope → Disk → Outcome
plan_and_run m shell term args tools scope disk =
    after_plan m shell term args tools scope disk
      (plan_install m disk (options_of args tools scope))

-- the scope is asked for where no argument is `--scope`
unfoldable pub scope_from : Terminal → List Text → InstallArgs → Option InstallScope
scope_from term argv args =
    if any (λ arg. text_eq arg (str "--scope")) argv then some args.scope else term.chosen_scope

abbrev pub with_scope :
    Machine
    → Shell
    → Terminal
    → InstallArgs
    → List InstallTool
    → Option InstallScope
    → Disk
    → Outcome
with_scope m shell term args tools none disk = ends throws disk
with_scope m shell term args tools (some scope) disk =
    plan_and_run m shell term args tools scope disk

abbrev pub with_prompts :
    Machine
    → Shell
    → Terminal
    → List Text
    → InstallArgs
    → Option (List InstallTool)
    → Disk
    → Outcome
with_prompts m shell term argv args none disk = ends throws disk
with_prompts m shell term argv args (some tools) disk =
    with_scope m shell term args tools (scope_from term argv args) disk

-- the tools are asked for at a terminal where `--tool` is not given
unfoldable pub with_tools :
    Machine
    → Shell
    → Terminal
    → List Text
    → InstallArgs
    → Option (List InstallTool)
    → Disk
    → Outcome
with_tools m shell term argv args (some tools) disk =
    plan_and_run m shell term args tools args.scope disk
with_tools m shell term argv args none disk =
    if term.is_tty
    then with_prompts m shell term argv args term.chosen_tools disk
    else ends (exits 1) disk

abbrev pub with_args : Machine → Shell → Terminal → List Text → Result InstallArgs → Disk → Outcome
with_args m shell term argv (error e) disk = ends (exits 1) disk
with_args m shell term argv (ok args) disk =
    if args.help then ends (exits 0) disk else with_tools m shell term argv args args.tools disk

unfoldable pub run_install_command : Machine → Shell → Terminal → List Text → Disk → Outcome
run_install_command m shell term argv disk =
    with_args m shell term argv (parse_install_args m argv) disk
