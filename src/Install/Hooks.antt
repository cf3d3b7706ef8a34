-- ===== src/Install/Hooks.antt =====
-- The hooks in the settings of Claude Code and of Cursor (install/merge.ts).
use ctxlite.Prelude.{
  Bool, true, false, ◌&&◌, not, Option, none, some, List, [], ◌∷◌, ◌++◌, Text, str, length, Dict,
  dict_get, dict_set, dict_delete, or_else, filter_by, any, includes, ◌==◌, if◌then◌else◌,
}
use ctxlite.Json.{Json, num, string}
use ctxlite.Precall.Paths.{as_string}
use ctxlite.Install.Merge.{Change, as_object, as_array, object_or_empty, to_object, to_array}

abbrev hook_command_marker : Text
hook_command_marker = str "@ctxlite/cli hook"

-- `isObject(h) && typeof h.command === "string" && h.command.includes(…)`, which is also the test of
-- a hook of Cursor
abbrev includes_marker : Option Text → Bool
includes_marker none = false
includes_marker (some command) = includes command hook_command_marker

abbrev command_of : Option (Dict Json) → Option Text
command_of none = none
command_of (some h) = as_string (dict_get (str "command") h)

unfoldable pub is_ctxlite_hook : Json → Bool
is_ctxlite_hook h = includes_marker (command_of (as_object (some h)))

abbrev hooks_of : Option (Dict Json) → List Json
hooks_of none = []
hooks_of (some group) = or_else (as_array (dict_get (str "hooks") group)) []

unfoldable pub is_ctxlite_hook_group : Json → Bool
is_ctxlite_hook_group group = any is_ctxlite_hook (hooks_of (as_object (some group)))

pub record Entries : Type 0 where
  pub entries : List Json
  pub changed : Bool

-- a matcher group of Claude Code
unfoldable pub hook_group : Text → Json
hook_group command = to_object (
    (str "matcher", string (str "*"))
    ∷ (
      str "hooks",
      to_array (
          to_object ((str "type", string (str "command")) ∷ (str "command", string command) ∷ [])
          ∷ []),
    )
    ∷ [])

unfoldable pub add_ctxlite_hook_group : Option Json → Text → Entries
add_ctxlite_hook_group entries command =
    let list = or_else (as_array entries) [] in
    if any is_ctxlite_hook_group list
    then record { entries = list; changed = false }
    else record { entries = list ++ hook_group command ∷ []; changed = true }

unfoldable pub remove_groups : Option (List Json) → Entries
remove_groups none = record { entries = []; changed = false }
remove_groups (some list) =
    let filtered = filter_by (λ g. not (is_ctxlite_hook_group g)) list in
    record { entries = filtered; changed = not (length filtered == length list) }

unfoldable pub remove_ctxlite_hook_group : Option Json → Entries
remove_ctxlite_hook_group entries = remove_groups (as_array entries)

-- `{ ...base, hooks: { ...hooks, PreToolUse: pre, PostToolUse: post } }`
unfoldable pub with_hooks : Dict Json → Dict Json → List Json → List Json → Dict Json
with_hooks base hooks pre post =
    dict_set (str "hooks")
      (to_object (
        dict_set (str "PostToolUse") (to_array post)
          (dict_set (str "PreToolUse") (to_array pre) hooks)))
      base

abbrev if_changed : Dict Json → Dict Json → Entries → Entries → Change
if_changed base hooks pre post =
    if not pre.changed && not post.changed
    then record { next = base; changed = false }
    else record { next = with_hooks base hooks pre.entries post.entries; changed = true }

unfoldable pub merge_claude_code_hooks_config : Option Json → Change
merge_claude_code_hooks_config existing =
    let base = object_or_empty existing in
    let hooks = object_or_empty (dict_get (str "hooks") base) in
    if_changed base hooks
      (add_ctxlite_hook_group (dict_get (str "PreToolUse") hooks)
        (str "npx -y @ctxlite/cli hook pre-tool-use"))
      (add_ctxlite_hook_group (dict_get (str "PostToolUse") hooks)
        (str "npx -y @ctxlite/cli hook post-tool-use"))

unfoldable pub remove_claude_hooks : Dict Json → Option (Dict Json) → Change
remove_claude_hooks base none = record { next = base; changed = false }
remove_claude_hooks base (some hooks) =
    if_changed base hooks (remove_ctxlite_hook_group (dict_get (str "PreToolUse") hooks))
      (remove_ctxlite_hook_group (dict_get (str "PostToolUse") hooks))

unfoldable pub remove_claude_code_hooks_config : Option Json → Change
remove_claude_code_hooks_config existing =
    let base = object_or_empty existing in
    remove_claude_hooks base (as_object (dict_get (str "hooks") base))

-- `{ version: base.version ?? 1, ...base }`: the version stands first, and a version that is there, be
-- it `null`, takes the place of the default
unfoldable pub version_first : Dict Json → Dict Json
version_first base =
    (str "version", or_else (dict_get (str "version") base) (num (str "1")))
    ∷ dict_delete (str "version") base

unfoldable pub cursor_hook : Json
cursor_hook =
    to_object ((str "command", string (str "npx -y @ctxlite/cli hook cursor-pre-tool-use")) ∷ [])

unfoldable pub merge_cursor_hooks_config : Option Json → Change
merge_cursor_hooks_config existing =
    let base = object_or_empty existing in
    let hooks = object_or_empty (dict_get (str "hooks") base) in
    let pre_tool_use = or_else (as_array (dict_get (str "preToolUse") hooks)) [] in
    if any is_ctxlite_hook pre_tool_use then record { next = base; changed = false } else record {
      next =
          dict_set (str "hooks")
            (to_object
              (dict_set (str "preToolUse") (to_array (pre_tool_use ++ cursor_hook ∷ [])) hooks))
            (version_first base);
      changed = true;
    }

unfoldable pub remove_cursor_hooks : Dict Json → Dict Json → Option (List Json) → Change
remove_cursor_hooks base hooks none = record { next = base; changed = false }
remove_cursor_hooks base hooks (some list) =
    let filtered = filter_by (λ h. not (is_ctxlite_hook h)) list in
    if length filtered == length list then record { next = base; changed = false } else record {
      next =
          dict_set (str "hooks") (to_object (dict_set (str "preToolUse") (to_array filtered) hooks))
            base;
      changed = true;
    }

-- Without an object of hooks there is no list of them.
unfoldable pub remove_cursor_hooks_config : Option Json → Change
remove_cursor_hooks_config existing =
    let base = object_or_empty existing in
    let hooks = object_or_empty (dict_get (str "hooks") base) in
    remove_cursor_hooks base hooks (as_array (dict_get (str "preToolUse") hooks))
