-- ===== src/Install/Run.antt =====
-- `planInstall` and `runInstall` over the files of a disk (install/run.ts). Writing and removing a file
-- succeed, and nothing else writes meanwhile.
pub mod Kinds
pub mod Blank
pub mod Settled
pub mod Loop
pub mod Again
mod Tests
use ctxlite.Prelude.{
  Bool, true, false, ◌&&◌, not, Option, none, some, List, [], ◌∷◌, ◌++◌, Text, str, text_eq, length,
  Dict, dict_get, dict_set, dict_delete, or_else, ltb, if◌then◌else◌,
}
use ctxlite.Json.{Json, obj, end}
use ctxlite.Install.Merge.{to_object}
use ctxlite.Install.Apply.{
  ConfigKind, claude_code_skill, cursor_skill, opencode_skill, claude_code_conciseness_rule,
  cursor_conciseness_rule, apply_config_change,
}
use ctxlite.Install.Contents.{
  skill_content, claude_code_conciseness_rule_content, cursor_conciseness_rule_content,
}
use ctxlite.Install.Paths.{
  InstallTool, InstallScope, Machine, PathContext, InstallTarget, Result, InstallError, ok, error,
  invalid_json, unreadable, global, project, cursor, claude_code, claude_desktop,
}
use ctxlite.Install.Targets.{then_do, build_targets, tool_label}

-- The content of a file: a text that `JSON.parse` reads, by its value; any other text; or a file that
-- cannot be read though it is there.
pub data File : Type 0 where
  json : Json → File
  text : Text → File
  locked : File

abbrev pub Disk : Type 0
Disk = Dict File

pub record InstallOptions : Type 0 where
  pub tools : List InstallTool
  pub scope : InstallScope
  pub project_dir : Option Text
  pub home_dir : Option Text
  pub dry_run : Bool
  pub removing : Bool

pub data InstallAction : Type 0 where
  create update skip remove : InstallAction

pub record InstallPlanItem : Type 0 where
  pub tool : InstallTool
  pub scope : InstallScope
  pub config_path : Text
  pub action : InstallAction
  pub message : Text

-- `FULL_FILE_CONTENT[kind]`, which has no entry for the other kinds
unfoldable pub full_file_content : ConfigKind → Option Text
full_file_content claude_code_skill = some skill_content
full_file_content cursor_skill = some skill_content
full_file_content opencode_skill = some skill_content
full_file_content claude_code_conciseness_rule = some claude_code_conciseness_rule_content
full_file_content cursor_conciseness_rule = some cursor_conciseness_rule_content
full_file_content kind = none

-- `fullFileChange(…).changed`; a text that is JSON is neither empty nor one of the contents.
unfoldable pub full_file_changed : File → Text → Bool → Bool
full_file_changed (text t) expected removing =
    if removing then ltb 0 (length t) else not (text_eq t expected)
full_file_changed (json j) expected removing = true
full_file_changed locked expected removing = true

-- `readTextFile` and `readJsonFile`, for the file that the disk has at the path: whether there is one,
-- and what it holds
unfoldable pub read_text_file : Text → Option File → Result (Bool × File)
read_text_file path none = ok (false, text [])
read_text_file path (some locked) = error (unreadable path)
read_text_file path (some (text t)) = ok (true, text t)
read_text_file path (some (json j)) = ok (true, json j)

unfoldable pub read_json_file : Text → Option File → Result (Bool × Json)
read_json_file path none = ok (false, obj end)
read_json_file path (some locked) = error (unreadable path)
read_json_file path (some (text t)) = error (invalid_json path)
read_json_file path (some (json j)) = ok (true, j)

unfoldable pub action_for : Bool → Bool → Bool → InstallAction
action_for existed changed removing =
    if not changed then skip else if removing then remove else if existed then update else create

-- `exists` and `changed` of a target: with the content of a kind that owns its file, or as JSON
unfoldable pub examine_file :
    Option Text → ConfigKind → Bool → Text → Option File → Result (Bool × Bool)
examine_file (some expected) kind removing path file =
    then_do (read_text_file path file)
      (λ (existed, content). ok (existed, full_file_changed content expected removing))
examine_file none kind removing path file =
    then_do (read_json_file path file)
      (λ (existed, j). ok (existed, (apply_config_change kind (some j) removing).changed))

unfoldable pub examine : Disk → Bool → ConfigKind → Text → Result (Bool × Bool)
examine disk removing kind path =
    examine_file (full_file_content kind) kind removing path (dict_get path disk)

abbrev scope_text : InstallScope → Text
scope_text global = str "global"
scope_text project = str "project"

abbrev label_of : InstallTarget → Text
label_of t = tool_label t.tool ++ (str " (" ++ (scope_text t.scope ++ str ")"))

abbrev message_for : InstallTarget → InstallAction → Bool → Text
message_for t skip removing = label_of t ++ (str ": already configured — " ++ t.config_path)
message_for t action removing =
    (if removing then str "Remove " else str "Add ") ++ (label_of t ++ (str " → " ++ t.config_path))

unfoldable pub plan_item : InstallTarget → Bool → Bool × Bool → InstallPlanItem
unfolding action_for
plan_item t removing (existed, changed) =
    let action = action_for existed changed removing in
    record {
      tool = t.tool;
      scope = t.scope;
      config_path = t.config_path;
      action = action;
      message = message_for t action removing;
    }

unfoldable pub plan_targets : Disk → Bool → List InstallTarget → Result (List InstallPlanItem)
plan_targets disk removing [] = ok []
plan_targets disk removing (t ∷ ts) = then_do (examine disk removing t.kind t.config_path) (λ found.
    then_do (plan_targets disk removing ts) (λ items. ok (plan_item t removing found ∷ items)))

unfoldable pub to_path_context : InstallOptions → PathContext
to_path_context o = record { home_dir = o.home_dir; project_dir = o.project_dir }

unfoldable pub targets_of : Machine → InstallOptions → Result (List InstallTarget)
unfolding to_path_context
targets_of m o = build_targets m o.tools o.scope (to_path_context o)

unfoldable pub plan_install : Machine → Disk → InstallOptions → Result (List InstallPlanItem)
plan_install m disk o = then_do (targets_of m o) (plan_targets disk o.removing)

abbrev pub tool_index : InstallTool → Text
tool_index cursor = str "cursor"
tool_index InstallTool.opencode = str "opencode"
tool_index claude_code = str "claude-code"
tool_index claude_desktop = str "claude-desktop"

-- `item.tool === target.tool && item.configPath === target.configPath`
abbrev pub is_item_of : InstallTarget → InstallPlanItem → Bool
is_item_of t item =
    text_eq (tool_index item.tool) (tool_index t.tool) && text_eq item.config_path t.config_path

-- the action of `plan.find(…)`; where there is no item, the target is passed over
unfoldable pub action_of : InstallTarget → List InstallPlanItem → InstallAction
action_of t [] = skip
action_of t (item ∷ items) = if is_item_of t item then item.action else action_of t items

-- a kind that owns its file
unfoldable pub write_full_file : Text → Text → InstallAction → Disk → Disk
write_full_file path expected remove disk = dict_delete path disk
write_full_file path expected action disk = dict_set path (text expected) disk

-- a configuration: it is read again, changed and written
unfoldable pub write_config : ConfigKind → Text → Bool → Disk → Result Disk
write_config kind path removing disk =
    then_do (read_json_file path (dict_get path disk)) (λ (existed, j).
      ok (dict_set path (json (to_object (apply_config_change kind (some j) removing).next)) disk))

unfoldable pub write_file :
    Option Text → ConfigKind → Text → Bool → InstallAction → Disk → Result Disk
write_file content kind path removing skip disk = ok disk
write_file (some expected) kind path removing action disk =
    ok (write_full_file path expected action disk)
write_file none kind path removing action disk = write_config kind path removing disk

unfoldable pub write_target : InstallTarget → Bool → InstallAction → Disk → Result Disk
write_target t removing action disk =
    write_file (full_file_content t.kind) t.kind t.config_path removing action disk

-- the rest of the loop; an exception leaves the disk as it is then
abbrev pub go_on : Disk → Result Disk → (Disk → Result (Unit {0}) × Disk) → Result (Unit {0}) × Disk
go_on disk (error e) rest = (error e, disk)
go_on disk (ok disk') rest = rest disk'

unfoldable pub write_targets :
    List InstallPlanItem → Bool → List InstallTarget → Disk → Result (Unit {0}) × Disk
write_targets plan removing [] disk = (ok tt, disk)
write_targets plan removing (t ∷ ts) disk =
    go_on disk (write_target t removing (action_of t plan) disk)
      (λ disk'. write_targets plan removing ts disk')

abbrev pub report_plan :
    List InstallPlanItem → Result (Unit {0}) × Disk → Result (List InstallPlanItem) × Disk
report_plan plan (ok u, disk) = (ok plan, disk)
report_plan plan (error e, disk) = (error e, disk)

unfoldable pub write_plan :
    Result (List InstallTarget)
    → Bool
    → List InstallPlanItem
    → Disk
    → Result (List InstallPlanItem) × Disk
write_plan (error e) removing plan disk = (error e, disk)
write_plan (ok targets) removing plan disk =
    report_plan plan (write_targets plan removing targets disk)

-- what `runInstall` does with the plan: nothing where it is a dry run
unfoldable pub carry_out :
    Bool
    → Bool
    → Result (List InstallTarget)
    → Disk
    → Result (List InstallPlanItem)
    → Result (List InstallPlanItem) × Disk
carry_out dry_run removing targets disk (error e) = (error e, disk)
carry_out true removing targets disk (ok plan) = (ok plan, disk)
carry_out false removing targets disk (ok plan) = write_plan targets removing plan disk

unfoldable pub run_install : Machine → Disk → InstallOptions → Result (List InstallPlanItem) × Disk
run_install m disk o = carry_out o.dry_run o.removing (targets_of m o) disk (plan_install m disk o)
