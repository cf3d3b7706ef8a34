-- ===== src/Install/Paths.antt =====
-- The tools, scopes and paths of an installation (install/paths.ts, install/types.ts).
use ctxlite.Prelude.{ℕ, ◌++◌, Option, List, [], ◌∷◌, Text, str, or_else}
use ctxlite.Install.Apply.{ConfigKind}

pub data InstallTool : Type 0 where
  cursor opencode claude_code claude_desktop : InstallTool

pub data InstallScope : Type 0 where
  global project : InstallScope

-- `platform()`, as far as the paths depend on it
pub data Platform : Type 0 where
  win32 darwin linux : Platform

-- What `homedir()`, `process.cwd()`, `platform()` and `process.env.APPDATA` give.
pub record Machine : Type 0 where
  pub home_dir : Text
  pub cwd : Text
  pub platform : Platform
  pub app_data : Option Text

pub record PathContext : Type 0 where
  pub home_dir : Option Text
  pub project_dir : Option Text

pub record InstallTarget : Type 0 where
  pub tool : InstallTool
  pub scope : InstallScope
  pub config_path : Text
  pub kind : ConfigKind

-- What an installation may throw.
pub data InstallError : Type 0 where
  desktop_needs_global : InstallError
  invalid_json : Text → InstallError
  unreadable : Text → InstallError
  unknown_tool : Text → InstallError
  unknown_option : Text → InstallError
  invalid_scope : Option Text → InstallError

pub data Result {ℓ} (A : Type ℓ) : Type ℓ where
  ok : A → Result A
  error : InstallError → Result A

unfoldable pub home : Machine → PathContext → Text
home m ctx = or_else ctx.home_dir m.home_dir

unfoldable pub project_of : Machine → PathContext → Text
project_of m ctx = or_else ctx.project_dir m.cwd

abbrev pub separator : Platform → ℕ
separator win32 = b'\\'
separator darwin = b'/'
separator linux = b'/'

-- each part behind a separator
unfoldable pub tail_of : ℕ → List Text → Text
tail_of sep [] = []
tail_of sep (p ∷ ps) = sep ∷ (p ++ tail_of sep ps)

-- `join(base, …parts)`, for a base in its normal form that is no root, as `homedir` and `cwd` give it
unfoldable pub join_path : Machine → Text → List Text → Text
join_path m base parts = base ++ tail_of (separator m.platform) parts

unfoldable pub claude_desktop_base : Machine → PathContext → Text
unfolding home join_path
claude_desktop_base m ctx =
    or_else m.app_data (join_path m (home m ctx) (str "AppData" ∷ str "Roaming" ∷ []))

unfoldable pub desktop_path : Platform → Machine → PathContext → Text
desktop_path win32 m ctx =
    join_path m (claude_desktop_base m ctx) (str "Claude" ∷ str "claude_desktop_config.json" ∷ [])
desktop_path darwin m ctx = join_path m (home m ctx) (
    str "Library"
    ∷ str "Application Support"
    ∷ str "Claude"
    ∷ str "claude_desktop_config.json"
    ∷ [])
desktop_path linux m ctx =
    join_path m (home m ctx)
      (str ".config" ∷ str "claude-desktop" ∷ str "claude_desktop_config.json" ∷ [])

unfoldable pub claude_desktop_config_path : Machine → PathContext → Text
unfolding desktop_path
claude_desktop_config_path m ctx = desktop_path m.platform m ctx

-- The directory of a scope, and the parts below it: `scope === "global" ? join(home, …) : join(project, …)`.
unfoldable pub in_scope : Machine → InstallScope → PathContext → List Text → List Text → Text
unfolding home project_of join_path
in_scope m global ctx in_home in_project = join_path m (home m ctx) in_home
in_scope m project ctx in_home in_project = join_path m (project_of m ctx) in_project

unfoldable pub resolve_config_path :
    Machine → InstallTool → InstallScope → PathContext → Result Text
unfolding in_scope
resolve_config_path m cursor scope ctx = ok (
    in_scope m scope ctx (str ".cursor" ∷ str "mcp.json" ∷ [])
      (str ".cursor" ∷ str "mcp.json" ∷ []))
resolve_config_path m opencode scope ctx = ok (
    in_scope m scope ctx (str ".config" ∷ str "opencode" ∷ str "opencode.json" ∷ [])
      (str "opencode.json" ∷ []))
resolve_config_path m claude_code scope ctx =
    ok (in_scope m scope ctx (str ".claude.json" ∷ []) (str ".mcp.json" ∷ []))
resolve_config_path m claude_desktop global ctx = ok (claude_desktop_config_path m ctx)
resolve_config_path m claude_desktop project ctx = error desktop_needs_global

-- `resolveOpenCodeTuiConfigPath` and the functions behind it
unfoldable pub open_code_tui_config_path : Machine → InstallScope → PathContext → Text
unfolding in_scope
open_code_tui_config_path m scope ctx =
    in_scope m scope ctx (str ".config" ∷ str "opencode" ∷ str "tui.json" ∷ [])
      (str "tui.json" ∷ [])

-- the same parts in the home directory and in the project
unfoldable pub in_both : Machine → InstallScope → PathContext → List Text → Text
unfolding in_scope
in_both m scope ctx parts = in_scope m scope ctx parts parts

unfoldable pub claude_code_hooks_config_path : Machine → InstallScope → PathContext → Text
unfolding in_both
claude_code_hooks_config_path m scope ctx =
    in_both m scope ctx (str ".claude" ∷ str "settings.json" ∷ [])

unfoldable pub cursor_hooks_config_path : Machine → InstallScope → PathContext → Text
unfolding in_both
cursor_hooks_config_path m scope ctx = in_both m scope ctx (str ".cursor" ∷ str "hooks.json" ∷ [])

unfoldable pub claude_code_skill_config_path : Machine → InstallScope → PathContext → Text
unfolding in_both
claude_code_skill_config_path m scope ctx =
    in_both m scope ctx (str ".claude" ∷ str "skills" ∷ str "ctxlite" ∷ str "SKILL.md" ∷ [])

unfoldable pub cursor_skill_config_path : Machine → InstallScope → PathContext → Text
unfolding in_both
cursor_skill_config_path m scope ctx =
    in_both m scope ctx (str ".cursor" ∷ str "skills" ∷ str "ctxlite" ∷ str "SKILL.md" ∷ [])

unfoldable pub open_code_skill_config_path : Machine → InstallScope → PathContext → Text
unfolding in_scope
open_code_skill_config_path m scope ctx =
    in_scope m scope ctx
      (str ".config" ∷ str "opencode" ∷ str "skills" ∷ str "ctxlite" ∷ str "SKILL.md" ∷ [])
      (str ".opencode" ∷ str "skills" ∷ str "ctxlite" ∷ str "SKILL.md" ∷ [])

unfoldable pub claude_code_conciseness_rule_path : Machine → InstallScope → PathContext → Text
unfolding in_both
claude_code_conciseness_rule_path m scope ctx =
    in_both m scope ctx (str ".claude" ∷ str "rules" ∷ str "ctxlite-conciseness.md" ∷ [])

unfoldable pub cursor_conciseness_rule_path : Machine → InstallScope → PathContext → Text
unfolding in_both
cursor_conciseness_rule_path m scope ctx =
    in_both m scope ctx (str ".cursor" ∷ str "rules" ∷ str "ctxlite-conciseness.mdc" ∷ [])
