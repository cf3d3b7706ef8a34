-- ===== src/Install/Run/Kinds/Ends.antt =====
-- The ends of the paths of an installation, and the kinds that they tell (install/paths.ts).
use mathlib.Core.List.{reverse}
use ctxlite.Prelude.{ℕ, ◌≡◌, refl, List, [], ◌∷◌, ◌++◌, Text, str, starts_with, if◌then◌else◌}
use ctxlite.Install.Apply.{
  ConfigKind, mcp, opencode_tui, claude_code_hooks, cursor_hooks, claude_code_skill, cursor_skill,
  opencode_skill, claude_code_conciseness_rule, cursor_conciseness_rule,
}
use ctxlite.Install.Paths.{win32, darwin, linux, Platform, separator, tail_of}

abbrev pub ends_in : Text → Text → ConfigKind → ConfigKind → ConfigKind
ends_in reversed end yes_kind no_kind =
    if starts_with reversed (reverse end) then yes_kind else no_kind

-- the kind that the end of a path tells, the path read backwards
unfoldable pub kind_from : ℕ → Text → ConfigKind
kind_from sep r = ends_in r (str ".mdc") cursor_conciseness_rule (
    ends_in r (str "conciseness.md") claude_code_conciseness_rule (
      ends_in r (str "settings.json") claude_code_hooks (
        ends_in r (str "hooks.json") cursor_hooks (
          ends_in r (str "opencode.json") ConfigKind.opencode (
            ends_in r (str "tui.json") opencode_tui (
              ends_in r
                (tail_of sep (str ".cursor" ∷ str "skills" ∷ str "ctxlite" ∷ str "SKILL.md" ∷ []))
                cursor_skill
                (ends_in r
                  (tail_of sep (str ".claude" ∷ str "skills" ∷ str "ctxlite" ∷ str "SKILL.md" ∷ []))
                  claude_code_skill (ends_in r (str "SKILL.md") opencode_skill mcp))))))))

kinds : Unit {0}
unfolding kind_from tail_of str starts_with
kinds = tt

-- The parts tell the kind, whatever stands in front of them.
abbrev pub Tells : List Text → ConfigKind → Type 0
Tells parts kind =
    (p : Platform) (r : Text)
    → kind_from (separator p) (reverse (tail_of (separator p) parts) ++ r) ≡ kind

tells :
    (parts : List Text) (kind : ConfigKind)
    → ((r : Text) → kind_from b'\\' (reverse (tail_of b'\\' parts) ++ r) ≡ kind)
    → ((r : Text) → kind_from b'/' (reverse (tail_of b'/' parts) ++ r) ≡ kind)
    → Tells parts kind
tells parts kind on_windows elsewhere win32 r = on_windows r
tells parts kind on_windows elsewhere darwin r = elsewhere r
tells parts kind on_windows elsewhere linux r = elsewhere r

pub tui_home : Tells (str ".config" ∷ str "opencode" ∷ str "tui.json" ∷ []) opencode_tui
unfolding kinds
tui_home =
    tells (str ".config" ∷ str "opencode" ∷ str "tui.json" ∷ []) opencode_tui (λ r. refl)
      (λ r. refl)

pub tui_project : Tells (str "tui.json" ∷ []) opencode_tui
unfolding kinds
tui_project = tells (str "tui.json" ∷ []) opencode_tui (λ r. refl) (λ r. refl)

pub open_code_skill_home :
    Tells
      (str ".config" ∷ str "opencode" ∷ str "skills" ∷ str "ctxlite" ∷ str "SKILL.md" ∷ [])
      opencode_skill
unfolding kinds
open_code_skill_home =
    tells (str ".config" ∷ str "opencode" ∷ str "skills" ∷ str "ctxlite" ∷ str "SKILL.md" ∷ [])
      opencode_skill (λ r. refl) (λ r. refl)

pub open_code_skill_project :
    Tells (str ".opencode" ∷ str "skills" ∷ str "ctxlite" ∷ str "SKILL.md" ∷ []) opencode_skill
unfolding kinds
open_code_skill_project =
    tells (str ".opencode" ∷ str "skills" ∷ str "ctxlite" ∷ str "SKILL.md" ∷ []) opencode_skill
      (λ r. refl) (λ r. refl)

pub claude_hooks : Tells (str ".claude" ∷ str "settings.json" ∷ []) claude_code_hooks
unfolding kinds
claude_hooks =
    tells (str ".claude" ∷ str "settings.json" ∷ []) claude_code_hooks (λ r. refl) (λ r. refl)

pub claude_skill :
    Tells (str ".claude" ∷ str "skills" ∷ str "ctxlite" ∷ str "SKILL.md" ∷ []) claude_code_skill
unfolding kinds
claude_skill =
    tells (str ".claude" ∷ str "skills" ∷ str "ctxlite" ∷ str "SKILL.md" ∷ []) claude_code_skill
      (λ r. refl) (λ r. refl)

pub claude_rule :
    Tells
      (str ".claude" ∷ str "rules" ∷ str "ctxlite-conciseness.md" ∷ [])
      claude_code_conciseness_rule
unfolding kinds
claude_rule =
    tells (str ".claude" ∷ str "rules" ∷ str "ctxlite-conciseness.md" ∷ [])
      claude_code_conciseness_rule (λ r. refl) (λ r. refl)

pub hooks_of_cursor : Tells (str ".cursor" ∷ str "hooks.json" ∷ []) cursor_hooks
unfolding kinds
hooks_of_cursor = tells (str ".cursor" ∷ str "hooks.json" ∷ []) cursor_hooks (λ r. refl) (λ r. refl)

pub skill_of_cursor :
    Tells (str ".cursor" ∷ str "skills" ∷ str "ctxlite" ∷ str "SKILL.md" ∷ []) cursor_skill
unfolding kinds
skill_of_cursor =
    tells (str ".cursor" ∷ str "skills" ∷ str "ctxlite" ∷ str "SKILL.md" ∷ []) cursor_skill
      (λ r. refl) (λ r. refl)

pub rule_of_cursor :
    Tells (str ".cursor" ∷ str "rules" ∷ str "ctxlite-conciseness.mdc" ∷ []) cursor_conciseness_rule
unfolding kinds
rule_of_cursor =
    tells (str ".cursor" ∷ str "rules" ∷ str "ctxlite-conciseness.mdc" ∷ []) cursor_conciseness_rule
      (λ r. refl) (λ r. refl)

pub cursor_servers : Tells (str ".cursor" ∷ str "mcp.json" ∷ []) mcp
unfolding kinds
cursor_servers = tells (str ".cursor" ∷ str "mcp.json" ∷ []) mcp (λ r. refl) (λ r. refl)

pub claude_home : Tells (str ".claude.json" ∷ []) mcp
unfolding kinds
claude_home = tells (str ".claude.json" ∷ []) mcp (λ r. refl) (λ r. refl)

pub claude_project : Tells (str ".mcp.json" ∷ []) mcp
unfolding kinds
claude_project = tells (str ".mcp.json" ∷ []) mcp (λ r. refl) (λ r. refl)

pub open_code_home :
    Tells (str ".config" ∷ str "opencode" ∷ str "opencode.json" ∷ []) ConfigKind.opencode
unfolding kinds
open_code_home =
    tells (str ".config" ∷ str "opencode" ∷ str "opencode.json" ∷ []) ConfigKind.opencode
      (λ r. refl) (λ r. refl)

pub open_code_project : Tells (str "opencode.json" ∷ []) ConfigKind.opencode
unfolding kinds
open_code_project = tells (str "opencode.json" ∷ []) ConfigKind.opencode (λ r. refl) (λ r. refl)

pub desktop_win32 : Tells (str "Claude" ∷ str "claude_desktop_config.json" ∷ []) mcp
unfolding kinds
desktop_win32 =
    tells (str "Claude" ∷ str "claude_desktop_config.json" ∷ []) mcp (λ r. refl) (λ r. refl)

pub desktop_linux :
    Tells (str ".config" ∷ str "claude-desktop" ∷ str "claude_desktop_config.json" ∷ []) mcp
unfolding kinds
desktop_linux =
    tells (str ".config" ∷ str "claude-desktop" ∷ str "claude_desktop_config.json" ∷ []) mcp
      (λ r. refl) (λ r. refl)

pub desktop_darwin :
    Tells
      (str "Library"
        ∷ str "Application Support"
        ∷ str "Claude"
        ∷ str "claude_desktop_config.json"
        ∷ [])
      mcp
unfolding kinds
desktop_darwin =
    tells
      (str "Library"
        ∷ str "Application Support"
        ∷ str "Claude"
        ∷ str "claude_desktop_config.json"
        ∷ [])
      mcp (λ r. refl) (λ r. refl)
