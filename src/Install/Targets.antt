-- ===== src/Install/Targets.antt =====
-- `buildTargets`: the files that an installation looks at (install/paths.ts).
use ctxlite.Prelude.{List, [], ◌∷◌, ◌++◌, Text, str}
use ctxlite.Install.Apply.{
  ConfigKind, mcp, opencode_tui, claude_code_hooks, cursor_hooks, claude_code_skill, cursor_skill,
  opencode_skill, claude_code_conciseness_rule, cursor_conciseness_rule,
}
use ctxlite.Install.Paths.{
  InstallTool, InstallScope, Machine, PathContext, InstallTarget, Result, ok, error, cursor,
  claude_code, claude_desktop, resolve_config_path, open_code_tui_config_path,
  claude_code_hooks_config_path, cursor_hooks_config_path, claude_code_skill_config_path,
  cursor_skill_config_path, open_code_skill_config_path, claude_code_conciseness_rule_path,
  cursor_conciseness_rule_path,
}

-- `{ tool, scope, configPath, kind }`
abbrev pub target : InstallTool → InstallScope → Text → ConfigKind → InstallTarget
target tool scope path kind = record { tool = tool; scope = scope; config_path = path; kind = kind }

-- the rest of a computation, where it does not throw
abbrev pub then_do : {A B : Type 0} → Result A → (A → Result B) → Result B
then_do (ok a) f = f a
then_do (error e) f = error e

-- The targets of a tool, behind the one of its main configuration.
unfoldable pub more_targets :
    Machine → InstallTool → InstallScope → PathContext → List InstallTarget
more_targets m InstallTool.opencode scope ctx =
    target InstallTool.opencode scope (open_code_tui_config_path m scope ctx) opencode_tui
    ∷ target InstallTool.opencode scope (open_code_skill_config_path m scope ctx) opencode_skill
    ∷ []
more_targets m claude_code scope ctx =
    target claude_code scope (claude_code_hooks_config_path m scope ctx) claude_code_hooks
    ∷ target claude_code scope (claude_code_skill_config_path m scope ctx) claude_code_skill
    ∷ target claude_code scope (claude_code_conciseness_rule_path m scope ctx)
        claude_code_conciseness_rule
    ∷ []
more_targets m cursor scope ctx =
    target cursor scope (cursor_hooks_config_path m scope ctx) cursor_hooks
    ∷ target cursor scope (cursor_skill_config_path m scope ctx) cursor_skill
    ∷ target cursor scope (cursor_conciseness_rule_path m scope ctx) cursor_conciseness_rule
    ∷ []
more_targets m claude_desktop scope ctx = []

abbrev pub main_kind : InstallTool → ConfigKind
main_kind InstallTool.opencode = ConfigKind.opencode
main_kind cursor = mcp
main_kind claude_code = mcp
main_kind claude_desktop = mcp

-- Claude Desktop in a project throws here as it does in `buildTargets`.
unfoldable pub tool_targets :
    Machine → InstallTool → InstallScope → PathContext → Result (List InstallTarget)
unfolding more_targets
tool_targets m tool scope ctx =
    then_do (resolve_config_path m tool scope ctx)
      (λ path. ok (target tool scope path (main_kind tool) ∷ more_targets m tool scope ctx))

unfoldable pub build_targets :
    Machine → List InstallTool → InstallScope → PathContext → Result (List InstallTarget)
build_targets m [] scope ctx = ok []
build_targets m (tool ∷ tools) scope ctx =
    then_do (tool_targets m tool scope ctx)
      (λ targets. then_do (build_targets m tools scope ctx) (λ others. ok (targets ++ others)))

unfoldable pub tool_label : InstallTool → Text
tool_label cursor = str "Cursor"
tool_label InstallTool.opencode = str "OpenCode"
tool_label claude_code = str "Claude Code"
tool_label claude_desktop = str "Claude Desktop"
