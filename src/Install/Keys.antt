-- ===== src/Install/Keys.antt =====
-- About the keys that a change does not concern (install/merge.ts).
use ctxlite.Prelude.{
  ◌≡◌, refl, ◌∙◌, Bool, true, false, Option, List, [], ◌∷◌, arith, Text, str, text_eq, Dict,
  dict_get, dict_set, get-set, get-delete, any,
}
use ctxlite.Json.{Json}
use ctxlite.Install.Merge.{
  object_or_empty, default_mcp_entry, merge_mcp_config, remove_server, remove_mcp_config,
  merge_open_code_config, merge_open_code_tui_config, remove_plugin, remove_open_code_config,
}
use ctxlite.Install.Hooks.{
  with_hooks, merge_claude_code_hooks_config, remove_claude_hooks, remove_claude_code_hooks_config,
  version_first, merge_cursor_hooks_config, remove_cursor_hooks, remove_cursor_hooks_config,
}
use ctxlite.Install.Apply.{
  ConfigKind, mcp, opencode, opencode_tui, claude_code_hooks, cursor_hooks, claude_code_skill,
  cursor_skill, opencode_skill, claude_code_conciseness_rule, cursor_conciseness_rule, merge_config,
  remove_config, apply_config_change,
}

-- The keys that belong to the installer.
unfoldable pub own_keys : ConfigKind → List Text
own_keys opencode = str "plugin" ∷ str "$schema" ∷ []
own_keys opencode_tui = str "plugin" ∷ []
own_keys cursor_hooks = str "hooks" ∷ str "version" ∷ []
own_keys claude_code_hooks = str "hooks" ∷ []
own_keys kind = str "mcpServers" ∷ []

unfoldable pub is_own : ConfigKind → Text → Bool
is_own kind k = any (λ own. text_eq own k) (own_keys kind)

get-set-other :
    (k j : Text) (v : Json) (m : Dict Json)
    → text_eq k j ≡ false
    → dict_get j (dict_set k v m) ≡ dict_get j m
get-set-other k j v m h = rw (get-set k j v m, h) refl

mcp-keeps :
    (existing : Option Json) (k : Text)
    → text_eq (str "mcpServers") k ≡ false
    → dict_get k (merge_mcp_config existing default_mcp_entry).next
      ≡ dict_get k (object_or_empty existing)
unfolding merge_mcp_config
mcp-keeps existing k h =
    let other = λ (v : Json). get-set-other (str "mcpServers") k v (object_or_empty existing) h in
    grind (arith, other)

remove_mcp-keeps :
    (existing : Option Json) (k : Text)
    → text_eq (str "mcpServers") k ≡ false
    → dict_get k (remove_mcp_config existing).next ≡ dict_get k (object_or_empty existing)
unfolding remove_mcp_config remove_server
remove_mcp-keeps existing k h =
    let other = λ (v : Json). get-set-other (str "mcpServers") k v (object_or_empty existing) h in
    grind (arith, other)

opencode-keeps :
    (existing : Option Json) (k : Text)
    → text_eq (str "plugin") k ≡ false
    → text_eq (str "$schema") k ≡ false
    → dict_get k (merge_open_code_config existing).next ≡ dict_get k (object_or_empty existing)
unfolding merge_open_code_config
opencode-keeps existing k h i =
    let plugin = λ (v : Json) (m : Dict Json). get-set-other (str "plugin") k v m h in
    let schema = λ (v : Json) (m : Dict Json). get-set-other (str "$schema") k v m i in
    grind (arith, plugin, schema)

opencode_tui-keeps :
    (existing : Option Json) (k : Text)
    → text_eq (str "plugin") k ≡ false
    → dict_get k (merge_open_code_tui_config existing).next ≡ dict_get k (object_or_empty existing)
unfolding merge_open_code_tui_config
opencode_tui-keeps existing k h =
    let plugin = λ (v : Json) (m : Dict Json). get-set-other (str "plugin") k v m h in
    grind (arith, plugin)

remove_opencode-keeps :
    (existing : Option Json) (k : Text)
    → text_eq (str "plugin") k ≡ false
    → dict_get k (remove_open_code_config existing).next ≡ dict_get k (object_or_empty existing)
unfolding remove_open_code_config remove_plugin
remove_opencode-keeps existing k h =
    let plugin = λ (v : Json) (m : Dict Json). get-set-other (str "plugin") k v m h in
    grind (arith, plugin)

claude-keeps :
    (existing : Option Json) (k : Text)
    → text_eq (str "hooks") k ≡ false
    → dict_get k (merge_claude_code_hooks_config existing).next
      ≡ dict_get k (object_or_empty existing)
unfolding merge_claude_code_hooks_config with_hooks
claude-keeps existing k h =
    let hooks = λ (v : Json) (m : Dict Json). get-set-other (str "hooks") k v m h in
    grind (arith, hooks)

remove_claude-keeps :
    (existing : Option Json) (k : Text)
    → text_eq (str "hooks") k ≡ false
    → dict_get k (remove_claude_code_hooks_config existing).next
      ≡ dict_get k (object_or_empty existing)
unfolding remove_claude_code_hooks_config remove_claude_hooks with_hooks
remove_claude-keeps existing k h =
    let hooks = λ (v : Json) (m : Dict Json). get-set-other (str "hooks") k v m h in
    grind (arith, hooks)

version_first-keeps :
    (base : Dict Json) (k : Text)
    → text_eq (str "version") k ≡ false
    → dict_get k (version_first base) ≡ dict_get k base
unfolding version_first dict_get
version_first-keeps base k h = rw h (get-delete (str "version") k base ∙ rw h refl)

cursor-keeps :
    (existing : Option Json) (k : Text)
    → text_eq (str "hooks") k ≡ false
    → text_eq (str "version") k ≡ false
    → dict_get k (merge_cursor_hooks_config existing).next ≡ dict_get k (object_or_empty existing)
unfolding merge_cursor_hooks_config
cursor-keeps existing k h i =
    let hooks = λ (v : Json) (m : Dict Json). get-set-other (str "hooks") k v m h in
    grind (arith, hooks, version_first-keeps (object_or_empty existing) k i)

remove_cursor-keeps :
    (existing : Option Json) (k : Text)
    → text_eq (str "hooks") k ≡ false
    → dict_get k (remove_cursor_hooks_config existing).next ≡ dict_get k (object_or_empty existing)
unfolding remove_cursor_hooks_config remove_cursor_hooks
remove_cursor-keeps existing k h =
    let hooks = λ (v : Json) (m : Dict Json). get-set-other (str "hooks") k v m h in
    grind (arith, hooks)

merge_config-keeps :
    (kind : ConfigKind) (existing : Option Json) (k : Text)
    → is_own kind k ≡ false
    → dict_get k (merge_config kind existing).next ≡ dict_get k (object_or_empty existing)
unfolding merge_config is_own own_keys any
merge_config-keeps opencode existing k h = opencode-keeps existing k (ground arith) (ground arith)
merge_config-keeps opencode_tui existing k h = opencode_tui-keeps existing k (ground arith)
merge_config-keeps cursor_hooks existing k h = cursor-keeps existing k (ground arith) (ground arith)
merge_config-keeps claude_code_hooks existing k h = claude-keeps existing k (ground arith)
merge_config-keeps mcp existing k h = mcp-keeps existing k (ground arith)
merge_config-keeps claude_code_skill existing k h = mcp-keeps existing k (ground arith)
merge_config-keeps cursor_skill existing k h = mcp-keeps existing k (ground arith)
merge_config-keeps opencode_skill existing k h = mcp-keeps existing k (ground arith)
merge_config-keeps claude_code_conciseness_rule existing k h = mcp-keeps existing k (ground arith)
merge_config-keeps cursor_conciseness_rule existing k h = mcp-keeps existing k (ground arith)

remove_config-keeps :
    (kind : ConfigKind) (existing : Option Json) (k : Text)
    → is_own kind k ≡ false
    → dict_get k (remove_config kind existing).next ≡ dict_get k (object_or_empty existing)
unfolding remove_config is_own own_keys any
remove_config-keeps opencode existing k h = remove_opencode-keeps existing k (ground arith)
remove_config-keeps opencode_tui existing k h = remove_opencode-keeps existing k (ground arith)
remove_config-keeps cursor_hooks existing k h = remove_cursor-keeps existing k (ground arith)
remove_config-keeps claude_code_hooks existing k h = remove_claude-keeps existing k (ground arith)
remove_config-keeps mcp existing k h = remove_mcp-keeps existing k (ground arith)
remove_config-keeps claude_code_skill existing k h = remove_mcp-keeps existing k (ground arith)
remove_config-keeps cursor_skill existing k h = remove_mcp-keeps existing k (ground arith)
remove_config-keeps opencode_skill existing k h = remove_mcp-keeps existing k (ground arith)
remove_config-keeps claude_code_conciseness_rule existing k h =
    remove_mcp-keeps existing k (ground arith)
remove_config-keeps cursor_conciseness_rule existing k h =
    remove_mcp-keeps existing k (ground arith)

-- Whatever the kind of a configuration, and whether ctxlite is added or removed, every property that is
-- not one of the installer's keys of this kind has the value that it had, and none is new.
pub apply_config_change-keeps :
    (kind : ConfigKind) (existing : Option Json) (remove : Bool) (k : Text)
    → is_own kind k ≡ false
    → dict_get k (apply_config_change kind existing remove).next
      ≡ dict_get k (object_or_empty existing)
unfolding apply_config_change
apply_config_change-keeps kind existing true k h = remove_config-keeps kind existing k h
apply_config_change-keeps kind existing false k h = merge_config-keeps kind existing k h
