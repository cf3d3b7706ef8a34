-- ===== src/Install/Merge.antt =====
-- The configurations of the MCP servers and of OpenCode's plugins (install/merge.ts). A configuration
-- is any JSON value, or none where there is no file.
use ctxlite.Prelude.{
  Bool, true, false, ◌&&◌, not, Option, none, some, List, [], ◌∷◌, ◌++◌, map, Text, str, text_eq,
  length, Dict, dict_get, dict_set, dict_delete, or_else, filter_by, any, ◌==◌, if◌then◌else◌,
}
use ctxlite.Json.{Json, null, bool, num, string, arr, obj, items, of_items, fields, of_fields}
use ctxlite.Json.Stringify.{stringify}
use ctxlite.Precall.Paths.{as_string}

pub record Change : Type 0 where
  pub next : Dict Json
  pub changed : Bool

-- `isObject(value)`, with its properties, and `Array.isArray(value)`, with its elements
unfoldable pub as_object : Option Json → Option (Dict Json)
as_object none = none
as_object (some (obj fs)) = some (fields fs)
as_object (some v) = none

unfoldable pub as_array : Option Json → Option (List Json)
as_array none = none
as_array (some (arr vs)) = some (items vs)
as_array (some v) = none

-- `isObject(value) ? { ...value } : {}`
abbrev pub object_or_empty : Option Json → Dict Json
object_or_empty v = or_else (as_object v) []

unfoldable pub to_object : Dict Json → Json
to_object d = obj (of_fields d)

unfoldable pub to_array : List Json → Json
to_array vs = arr (of_items vs)

-- `value ?? default`
unfoldable pub nullish_or : Option Json → Json → Json
nullish_or none v = v
nullish_or (some null) v = v
nullish_or (some w) v = w

-- `!value`
unfoldable pub is_falsy : Option Json → Bool
is_falsy none = true
is_falsy (some null) = true
is_falsy (some (bool b)) = not b
is_falsy (some (num t)) = text_eq t (str "0")
is_falsy (some (string s)) = text_eq s []
is_falsy (some (arr vs)) = false
is_falsy (some (obj fs)) = false

pub record McpServerEntry : Type 0 where
  pub command : Text
  pub args : List Text
  pub type : Option Text
  pub env : Option (Dict Text)

abbrev pub default_mcp_entry : McpServerEntry
default_mcp_entry = record {
  command = str "npx";
  args = str "-y" ∷ str "@ctxlite/mcp" ∷ [];
  type = none;
  env = none;
}

unfoldable pub texts_json : List Text → Json
texts_json ts = to_array (map (λ t. string t) ts)

unfoldable pub env_json : Dict Text → Json
env_json env = to_object (map (λ (k, v). (k, string v)) env)

abbrev type_fields : Option Text → Dict Json
type_fields none = []
type_fields (some t) = (str "type", string t) ∷ []

abbrev env_fields : Option (Dict Text) → Dict Json
env_fields none = []
env_fields (some env) = (str "env", env_json env) ∷ []

unfoldable pub entry_fields : McpServerEntry → Dict Json
entry_fields entry =
    (str "command", string entry.command)
      ∷ (str "args", texts_json entry.args)
      ∷ type_fields entry.type
    ++ env_fields entry.env

-- `a === b` where `b` is a text or is missing
unfoldable pub equals_text : Option Json → Option Text → Bool
equals_text none none = true
equals_text none (some t) = false
equals_text (some v) none = false
equals_text (some (string s)) (some t) = text_eq s t
equals_text (some v) (some t) = false

-- `JSON.stringify(a ?? …) === JSON.stringify(b)`
unfoldable pub same_json : Json → Json → Bool
same_json v w = text_eq (stringify v) (stringify w)

abbrev env_or_empty : Option (Dict Text) → Json
env_or_empty none = to_object []
env_or_empty (some env) = env_json env

unfoldable pub entries_equal : Dict Json → McpServerEntry → Bool
entries_equal a b =
    equals_text (dict_get (str "command") a) (some b.command)
    && (equals_text (dict_get (str "type") a) b.type
        && (same_json (nullish_or (dict_get (str "args") a) (to_array [])) (texts_json b.args)
            && same_json (nullish_or (dict_get (str "env") a) (to_object [])) (env_or_empty b.env)))

abbrev pub is_current : Option (Dict Json) → McpServerEntry → Bool
is_current none entry = false
is_current (some current) entry = entries_equal current entry

unfoldable pub merge_mcp_config : Option Json → McpServerEntry → Change
merge_mcp_config existing entry =
    let base = object_or_empty existing in
    let servers = object_or_empty (dict_get (str "mcpServers") base) in
    if is_current (as_object (dict_get (str "ctxlite") servers)) entry
    then record { next = dict_set (str "mcpServers") (to_object servers) base; changed = false }
    else record {
      next =
          dict_set (str "mcpServers")
            (to_object (dict_set (str "ctxlite") (to_object (entry_fields entry)) servers)) base;
      changed = true;
    }

abbrev pub has_key : Text → Dict Json → Bool
has_key k d = elim (dict_get k d) [ none ↦ false | some v ↦ true ]

-- the removal in a configuration and in its servers, where there are any
unfoldable pub remove_server : Dict Json → Option (Dict Json) → Change
remove_server base none = record { next = base; changed = false }
remove_server base (some servers) =
    if has_key (str "ctxlite") servers
    then record {
      next = dict_set (str "mcpServers") (to_object (dict_delete (str "ctxlite") servers)) base;
      changed = true;
    }
    else record { next = base; changed = false }

unfoldable pub remove_mcp_config : Option Json → Change
remove_mcp_config existing =
    let base = object_or_empty existing in
    remove_server base (as_object (dict_get (str "mcpServers") base))

-- `filter((item) => typeof item === "string")`
unfoldable pub strings_of : List Json → List Text
strings_of [] = []
strings_of (v ∷ vs) = elim (as_string (some v)) [
  | none ↦ strings_of vs
  | some s ↦ s ∷ strings_of vs
]

abbrev pub open_code_plugin : Text
open_code_plugin = str "@ctxlite/opencode"

abbrev pub plugins_of : Dict Json → List Text
plugins_of base = strings_of (or_else (as_array (dict_get (str "plugin") base)) [])

-- `plugins.includes(OPENCODE_PLUGIN)`
unfoldable pub has_plugin : List Text → Bool
has_plugin plugins = any (λ p. text_eq p open_code_plugin) plugins

abbrev pub schema_url : Json
schema_url = string (str "https://opencode.ai/config.json")

unfoldable pub merge_open_code_config : Option Json → Change
merge_open_code_config existing =
    let base = object_or_empty existing in
    let schema = dict_get (str "$schema") base in
    if has_plugin (plugins_of base)
    then if is_falsy schema
      then record { next = dict_set (str "$schema") schema_url base; changed = true }
      else record { next = base; changed = false }
    else record {
      next =
          dict_set (str "plugin") (texts_json (plugins_of base ++ open_code_plugin ∷ []))
            (dict_set (str "$schema") (nullish_or schema schema_url) base);
      changed = true;
    }

unfoldable pub merge_open_code_tui_config : Option Json → Change
merge_open_code_tui_config existing =
    let base = object_or_empty existing in
    if has_plugin (plugins_of base) then record { next = base; changed = false } else record {
      next = dict_set (str "plugin") (texts_json (plugins_of base ++ open_code_plugin ∷ [])) base;
      changed = true;
    }

-- `filter((item) => item !== OPENCODE_PLUGIN)` and the test of its length
unfoldable pub remove_plugin : Dict Json → Option (List Json) → Change
remove_plugin base none = record { next = base; changed = false }
remove_plugin base (some vs) =
    let plugins = strings_of vs in
    let next_plugins = filter_by (λ p. not (text_eq p open_code_plugin)) plugins in
    if length next_plugins == length plugins
    then record { next = base; changed = false }
    else record { next = dict_set (str "plugin") (texts_json next_plugins) base; changed = true }

-- `removeOpenCodeConfig` and `removeOpenCodeTuiConfig`, which do the same
unfoldable pub remove_open_code_config : Option Json → Change
remove_open_code_config existing =
    let base = object_or_empty existing in
    remove_plugin base (as_array (dict_get (str "plugin") base))
