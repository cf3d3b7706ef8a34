-- ===== src/Install/Run/Kinds.antt =====
-- About the path of a target and its kind (install/paths.ts).
mod Ends
use mathlib.Core.List.{reverse, reverse-append}
use ctxlite.Prelude.{
  ℕ, ◌≡◌, refl, ap, ◌∙◌, List, [], ◌∷◌, ◌++◌, Text, str, starts_with, if◌then◌else◌, All,
  All-append,
}
use ctxlite.Install.Apply.{
  ConfigKind, mcp, opencode_tui, claude_code_hooks, cursor_hooks, claude_code_skill, cursor_skill,
  opencode_skill, claude_code_conciseness_rule, cursor_conciseness_rule,
}
use ctxlite.Install.Paths.{
  InstallTool, InstallScope, Machine, PathContext, InstallTarget, Result, ok, error, cursor,
  claude_code, claude_desktop, global, project, win32, darwin, linux, Platform, separator, tail_of,
  join_path, resolve_config_path, open_code_tui_config_path, in_scope, in_both,
  claude_code_hooks_config_path, cursor_hooks_config_path, claude_code_skill_config_path,
  cursor_skill_config_path, open_code_skill_config_path, claude_code_conciseness_rule_path,
  cursor_conciseness_rule_path, claude_desktop_config_path, claude_desktop_base, home, project_of,
}
use ctxlite.Install.Targets.{more_targets, tool_targets, build_targets, then_do}
use ctxlite.Install.Paths.{desktop_path}
use ctxlite.Install.Targets.{main_kind}
use ctxlite.Install.Run.Kinds.Ends.{
  kind_from, Tells, tui_home, tui_project, open_code_skill_home, open_code_skill_project,
  claude_hooks, claude_skill, claude_rule, hooks_of_cursor, skill_of_cursor, rule_of_cursor,
  cursor_servers, claude_home, claude_project, open_code_home, open_code_project, desktop_win32,
  desktop_linux, desktop_darwin,
}
use ctxlite.Prelude.{◌⊎◌}
use ctxlite.Install.Paths.{InstallError}
use ctxlite.Prelude.{inl}
use ctxlite.Prelude.{inr}

-- The kind of the file at a path, by the end of the path.
pub kind_at : Machine → Text → ConfigKind
kind_at m path = kind_from (separator m.platform) (reverse path)

kind_at-join :
    (m : Machine) (base : Text) (parts : List Text) (kind : ConfigKind)
    → Tells parts kind
    → kind_at m (join_path m base parts) ≡ kind
unfolding kind_at join_path
kind_at-join m base parts kind t =
    ap (λ (r : Text). kind_from (separator m.platform) r)
      (reverse-append base (tail_of (separator m.platform) parts))
    ∙ t m.platform (reverse base)

kind_at-in_scope :
    (m : Machine) (scope : InstallScope) (ctx : PathContext) (a b : List Text) (kind : ConfigKind)
    → Tells a kind
    → Tells b kind
    → kind_at m (in_scope m scope ctx a b) ≡ kind
unfolding in_scope
kind_at-in_scope m global ctx a b kind ta tb = kind_at-join m (home m ctx) a kind ta
kind_at-in_scope m project ctx a b kind ta tb = kind_at-join m (project_of m ctx) b kind tb

kind_at-in_both :
    (m : Machine) (scope : InstallScope) (ctx : PathContext) (a : List Text) (kind : ConfigKind)
    → Tells a kind
    → kind_at m (in_both m scope ctx a) ≡ kind
unfolding in_both
kind_at-in_both m scope ctx a kind t = kind_at-in_scope m scope ctx a a kind t t

abbrev pub HasKind : Machine → InstallTarget → Type 0
HasKind m t = kind_at m t.config_path ≡ t.kind

more_targets-HasKind :
    (m : Machine) (tool : InstallTool) (scope : InstallScope) (ctx : PathContext)
    → All (HasKind m) (more_targets m tool scope ctx)
unfolding more_targets open_code_tui_config_path open_code_skill_config_path
    claude_code_hooks_config_path claude_code_skill_config_path claude_code_conciseness_rule_path
    cursor_hooks_config_path cursor_skill_config_path cursor_conciseness_rule_path
more_targets-HasKind m InstallTool.opencode scope ctx = (
  kind_at-in_scope m scope ctx _ _ opencode_tui tui_home tui_project,
  (
    kind_at-in_scope m scope ctx _ _ opencode_skill open_code_skill_home open_code_skill_project,
    tt,
  ),
)
more_targets-HasKind m claude_code scope ctx = (
  kind_at-in_both m scope ctx _ claude_code_hooks claude_hooks,
  (
    kind_at-in_both m scope ctx _ claude_code_skill claude_skill,
    (kind_at-in_both m scope ctx _ claude_code_conciseness_rule claude_rule, tt),
  ),
)
more_targets-HasKind m cursor scope ctx = (
  kind_at-in_both m scope ctx _ cursor_hooks hooks_of_cursor,
  (
    kind_at-in_both m scope ctx _ cursor_skill skill_of_cursor,
    (kind_at-in_both m scope ctx _ cursor_conciseness_rule rule_of_cursor, tt),
  ),
)
more_targets-HasKind m claude_desktop scope ctx = tt

-- A property of the value that a computation returns, if it returns one.
abbrev pub OnOk : {A : Type 0} → (A → Type 0) → Result A → Type 0
OnOk P (ok a) = P a
OnOk P (error e) = Unit

pub Result-cases :
    {A : Type 0} (r : Result A) → ((a : A) × (r ≡ ok a)) ⊎ ((e : InstallError) × (r ≡ error e))
Result-cases (ok a) = inl (a, refl)
Result-cases (error e) = inr (e, refl)

pub OnOk-then_do :
    {A B : Type 0} (P : A → Type 0) (Q : B → Type 0) (r : Result A) (f : A → Result B)
    → OnOk P r
    → ((a : A) → P a → OnOk Q (f a))
    → OnOk Q (then_do r f)
OnOk-then_do P Q (ok a) f h k = k a h
OnOk-then_do P Q (error e) f h k = tt

kind_at-desktop :
    (p : Platform) (m : Machine) (ctx : PathContext) → kind_at m (desktop_path p m ctx) ≡ mcp
unfolding desktop_path
kind_at-desktop win32 m ctx = kind_at-join m (claude_desktop_base m ctx) _ mcp desktop_win32
kind_at-desktop darwin m ctx = kind_at-join m (home m ctx) _ mcp desktop_darwin
kind_at-desktop linux m ctx = kind_at-join m (home m ctx) _ mcp desktop_linux

main-HasKind :
    (m : Machine) (tool : InstallTool) (scope : InstallScope) (ctx : PathContext)
    → OnOk (λ path. kind_at m path ≡ main_kind tool) (resolve_config_path m tool scope ctx)
unfolding resolve_config_path claude_desktop_config_path
main-HasKind m cursor scope ctx = kind_at-in_scope m scope ctx _ _ mcp cursor_servers cursor_servers
main-HasKind m InstallTool.opencode scope ctx =
    kind_at-in_scope m scope ctx _ _ ConfigKind.opencode open_code_home open_code_project
main-HasKind m claude_code scope ctx =
    kind_at-in_scope m scope ctx _ _ mcp claude_home claude_project
main-HasKind m claude_desktop global ctx = kind_at-desktop m.platform m ctx
main-HasKind m claude_desktop project ctx = tt

tool_targets-HasKind :
    (m : Machine) (tool : InstallTool) (scope : InstallScope) (ctx : PathContext)
    → OnOk (All (HasKind m)) (tool_targets m tool scope ctx)
unfolding tool_targets
tool_targets-HasKind m tool scope ctx =
    OnOk-then_do (λ path. kind_at m path ≡ main_kind tool) (All (HasKind m))
      (resolve_config_path m tool scope ctx) _ (main-HasKind m tool scope ctx)
      (λ path h. (h, more_targets-HasKind m tool scope ctx))

-- Whatever the tools, the scope and the machine, the path of each target tells its kind, so that
-- targets with the same path have the same kind.
pub build_targets-HasKind :
    (m : Machine) (tools : List InstallTool) (scope : InstallScope) (ctx : PathContext)
    → OnOk (All (HasKind m)) (build_targets m tools scope ctx)
unfolding build_targets
build_targets-HasKind m [] scope ctx = tt
build_targets-HasKind m (tool ∷ tools) scope ctx =
    OnOk-then_do (All (HasKind m)) (All (HasKind m)) (tool_targets m tool scope ctx) _
      (tool_targets-HasKind m tool scope ctx)
      (λ ts h.
        OnOk-then_do (All (HasKind m)) (All (HasKind m)) (build_targets m tools scope ctx) _
          (build_targets-HasKind m tools scope ctx) (λ us k. All-append (HasKind m) ts us h k))
