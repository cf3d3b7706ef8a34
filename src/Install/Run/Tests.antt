-- ===== src/Install/Run/Tests.antt =====
-- Runs of the installer (install/run.ts).
use mathlib.Core.Path.{subst}
use ctxlite.Prelude.{
  ◌≡◌, refl, ◌⊎◌, inl, inr, false, none, List, [], ◌∷◌, ◌++◌, Text, str, text_eq, dict_get,
  dict_set, any, All, if◌then◌else◌, Bool-cases, unlines,
}
use ctxlite.Json.{Json, obj, end, field, string}
use ctxlite.Install.Merge.{
  as_object, as_array, to_object, to_array, nullish_or, is_falsy, texts_json, strings_of,
  has_plugin, merge_open_code_config, merge_open_code_tui_config,
}
use ctxlite.Precall.Paths.{as_string}
use ctxlite.Install.Again.{is_blank}
use ctxlite.Install.Apply.{apply_config_change, merge_config}
use ctxlite.Install.Contents.{skill_content}
use ctxlite.Install.Paths.{
  InstallTool, Machine, InstallError, ok, error, invalid_json, project, linux, home, project_of,
  tail_of, join_path, in_scope, in_both, resolve_config_path, open_code_tui_config_path,
  open_code_skill_config_path,
}
use ctxlite.Install.Targets.{more_targets, tool_targets, build_targets, tool_label}
use ctxlite.Install.Run.{
  json, text, Disk, InstallOptions, InstallAction, create, update, InstallPlanItem,
  full_file_content, full_file_changed, read_text_file, read_json_file, action_for, examine,
  examine_file, plan_item, plan_targets, to_path_context, targets_of, plan_install, action_of,
  write_full_file, write_config, write_target, write_file, write_targets, write_plan, carry_out,
  run_install,
}
use ctxlite.Install.Run.Kinds.{OnOk}
use ctxlite.Install.Run.Blank.{NotBlank}
use ctxlite.Install.Run.Settled.{NoBlanks}
use ctxlite.Install.Run.Again.{Skips, IsForeign, run_install-again, run_install-cases}

unfoldable pub run : Unit {0}
unfolding as_object as_array to_object to_array nullish_or is_falsy texts_json strings_of as_string
    has_plugin merge_open_code_config merge_open_code_tui_config apply_config_change merge_config
    dict_get dict_set text_eq str any home project_of tail_of join_path in_scope in_both
    resolve_config_path open_code_tui_config_path open_code_skill_config_path more_targets
    tool_targets build_targets tool_label full_file_content full_file_changed read_text_file
    read_json_file action_for examine examine_file plan_item plan_targets to_path_context targets_of
    plan_install action_of write_full_file write_config write_target write_file write_targets
    write_plan carry_out run_install
run = tt

abbrev machine : Machine
machine = record {
  home_dir = str "/home/ann";
  cwd = str "/work";
  platform = linux;
  app_data = none;
}

-- A project with a configuration of OpenCode and a note.
abbrev before : Disk
before =
    (str "/work/opencode.json", json (obj (field (str "theme") (string (str "dark")) end)))
    ∷ (str "/work/notes.md", text (str "notes"))
    ∷ []

abbrev in_project : InstallOptions
in_project = record {
  tools = InstallTool.opencode ∷ [];
  scope = project;
  project_dir = none;
  home_dir = none;
  dry_run = false;
  removing = false;
}

abbrev item : Text → InstallAction → InstallPlanItem
item path action = record {
  tool = InstallTool.opencode;
  scope = project;
  config_path = path;
  action = action;
  message = str "Add OpenCode (project) → " ++ path;
}

abbrev first_plan : List InstallPlanItem
first_plan =
    item (str "/work/opencode.json") update
    ∷ item (str "/work/tui.json") create
    ∷ item (str "/work/.opencode/skills/ctxlite/SKILL.md") create
    ∷ []

first_plan-planned : plan_install machine before in_project ≡ ok first_plan
unfolding run skill_content unlines
first_plan-planned = refl

-- A file that is no JSON stops the installation before it writes.
tui_broken :
    run_install machine ((str "/work/tui.json", text (str "{")) ∷ before) in_project
    ≡ (error (invalid_json (str "/work/tui.json")), (str "/work/tui.json", text (str "{")) ∷ before)
unfolding run skill_content unlines
tui_broken = refl

abbrev themed : Json
themed = obj (field (str "theme") (string (str "dark")) end)

themed-NotBlank : NotBlank themed
unfolding run is_blank
themed-NotBlank = refl

before-NoBlanks : NoBlanks before
unfolding dict_get
before-NoBlanks path j h = elim (Bool-cases (text_eq (str "/work/opencode.json") path)) [
  | inl e ↦ let same : themed ≡ j = cc (rw e at h) in subst NotBlank same themed-NotBlank
  | inr e ↦ elim (Bool-cases (text_eq (str "/work/notes.md") path)) [
    | inl f ↦ cc (rw (e, f) at h)
    | inr f ↦ cc (rw (e, f) at h)
  ]
]

run_install-again_example :
    ((run_install machine before in_project).0 ≡ ok first_plan)
    × ((after : List InstallPlanItem) × (plan_install machine
            (run_install machine before in_project).1
            in_project
          ≡ ok after)
        × All Skips after)
run_install-again_example =
    run_install-again machine before in_project first_plan before-NoBlanks refl first_plan-planned

notes-IsForeign : OnOk (IsForeign (str "/work/notes.md")) (targets_of machine in_project)
unfolding run
notes-IsForeign = (refl, (refl, (refl, tt)))

run_install-cases_example :
    (((e : InstallError) × (plan_install machine before in_project ≡ error e)
        × (run_install machine before in_project ≡ (error e, before)))
      ⊎ ((plan : List InstallPlanItem) × (plan_install machine before in_project ≡ ok plan)
          × ((run_install machine before in_project).0 ≡ ok plan)))
    × (dict_get (str "/work/notes.md") (run_install machine before in_project).1
        ≡ dict_get (str "/work/notes.md") before)
    × ((if false then before else (run_install machine before in_project).1)
        ≡ (run_install machine before in_project).1)
run_install-cases_example =
    run_install-cases machine before in_project (str "/work/notes.md") before-NoBlanks
      notes-IsForeign
