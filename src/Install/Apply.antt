-- ===== src/Install/Apply.antt =====
-- `applyConfigChange`: the change of a configuration of each kind (install/merge.ts, types.ts).
use ctxlite.Prelude.{Bool, Option, if◌then◌else◌}
use ctxlite.Json.{Json}
use ctxlite.Install.Merge.{
  Change, default_mcp_entry, merge_mcp_config, remove_mcp_config, merge_open_code_config,
  merge_open_code_tui_config, remove_open_code_config,
}
use ctxlite.Install.Hooks.{
  merge_claude_code_hooks_config, remove_claude_code_hooks_config, merge_cursor_hooks_config,
  remove_cursor_hooks_config,
}

pub data ConfigKind : Type 0 where
  mcp opencode opencode_tui claude_code_hooks cursor_hooks claude_code_skill cursor_skill
        opencode_skill claude_code_conciseness_rule cursor_conciseness_rule :
      ConfigKind

-- The kinds that own a whole file come here with the servers, but their callers do not call this.
unfoldable pub merge_config : ConfigKind → Option Json → Change
merge_config opencode existing = merge_open_code_config existing
merge_config opencode_tui existing = merge_open_code_tui_config existing
merge_config cursor_hooks existing = merge_cursor_hooks_config existing
merge_config claude_code_hooks existing = merge_claude_code_hooks_config existing
merge_config kind existing = merge_mcp_config existing default_mcp_entry

unfoldable pub remove_config : ConfigKind → Option Json → Change
remove_config opencode existing = remove_open_code_config existing
remove_config opencode_tui existing = remove_open_code_config existing
remove_config cursor_hooks existing = remove_cursor_hooks_config existing
remove_config claude_code_hooks existing = remove_claude_code_hooks_config existing
remove_config kind existing = remove_mcp_config existing

unfoldable pub apply_config_change : ConfigKind → Option Json → Bool → Change
apply_config_change kind existing remove =
    if remove then remove_config kind existing else merge_config kind existing
