-- ===== src/Install/Tests.antt =====
-- Runs of the changes of configurations (install/merge.ts).
use ctxlite.Prelude.{◌≡◌, refl, true, false, some, [], str, text_eq, dict_get, dict_set, any}
use ctxlite.Json.{Json, string, arr, obj, nil, item, end, field}
use ctxlite.Precall.Paths.{as_string}
use ctxlite.Install.Merge.{
  as_object, as_array, object_or_empty, to_object, to_array, nullish_or, is_falsy, texts_json,
  strings_of, has_plugin, merge_open_code_config,
}
use ctxlite.Install.Apply.{opencode, merge_config, apply_config_change}
use ctxlite.Install.Written.{written_json}
use ctxlite.Install.Again.{is_blank}
use ctxlite.Install.Repeat.{apply_config_change-again}
use ctxlite.Install.Keys.{is_own, own_keys, apply_config_change-keeps}

install : Unit {0}
unfolding as_object as_array to_object to_array nullish_or is_falsy texts_json strings_of as_string
    has_plugin merge_open_code_config apply_config_change merge_config is_blank is_own own_keys any
    dict_get dict_set text_eq str
install = tt

-- A `$schema` that is an empty text is kept by the first change, and replaced by the second.
abbrev blank_schema : Json
blank_schema = obj (field (str "$schema") (string []) end)

blank_schema_changes_twice :
    (merge_open_code_config (written_json (merge_open_code_config (some blank_schema)))).changed
    ≡ true
unfolding install
blank_schema_changes_twice = refl

-- A plugin that is no text, such as one with options, is dropped.
abbrev plugin_with_options : Json
plugin_with_options = arr (item (string (str "other")) (item (obj end) nil))

abbrev with_options : Json
with_options =
    obj (field (str "plugin") (arr (item plugin_with_options (item (string (str "p")) nil))) end)

plugin_with_options_is_lost :
    dict_get (str "plugin") (merge_open_code_config (some with_options)).next
    ≡ some (arr (item (string (str "p")) (item (string (str "@ctxlite/opencode")) nil)))
unfolding install
plugin_with_options_is_lost = refl

abbrev themed : Json
themed = obj (field (str "theme") (string (str "dark")) end)

theme-not_own : is_own opencode (str "theme") ≡ false
unfolding install
theme-not_own = refl

apply_config_change-keeps_example :
    dict_get (str "theme") (apply_config_change opencode (some themed) false).next
    ≡ dict_get (str "theme") (object_or_empty (some themed))
apply_config_change-keeps_example =
    apply_config_change-keeps opencode (some themed) false (str "theme") theme-not_own

themed-not_blank : is_blank (dict_get (str "$schema") (object_or_empty (some themed))) ≡ false
unfolding install
themed-not_blank = refl

apply_config_change-again_example :
    (apply_config_change opencode
      (written_json (apply_config_change opencode (some themed) false))
      false).changed
    ≡ false
apply_config_change-again_example =
    apply_config_change-again opencode (some themed) false themed-not_blank
