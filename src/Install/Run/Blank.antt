-- ===== src/Install/Run/Blank.antt =====
-- About the property `$schema` of a configuration that has been changed (install/merge.ts).
use ctxlite.Prelude.{◌≡◌, refl, Bool, true, false, Option, none, some, str, text_eq, any, dict_get}
use ctxlite.Json.{Json, null, bool, num, string, arr, obj}
use ctxlite.Install.Merge.{
  object_or_empty, to_object, merge_open_code_config, nullish_or, schema_url,
}
use ctxlite.Install.Apply.{
  ConfigKind, mcp, opencode, opencode_tui, claude_code_hooks, cursor_hooks, claude_code_skill,
  cursor_skill, opencode_skill, claude_code_conciseness_rule, cursor_conciseness_rule, merge_config,
  remove_config, apply_config_change,
}
use ctxlite.Install.Again.{is_blank}
use ctxlite.Install.Keys.{is_own, own_keys, apply_config_change-keeps}
use ctxlite.Install.Written.{as_object-to_object}
use ctxlite.Install.Merge.{is_falsy, remove_open_code_config, remove_plugin}
use ctxlite.Prelude.{Bool-cases, Dict}
use ctxlite.Prelude.{List, dict_set}
use ctxlite.Install.Merge.{has_plugin}
use ctxlite.Install.Again.{plugin-schema}
use ctxlite.Install.Written.{get-set-same}
use ctxlite.Install.Merge.{plugins_of, strings_of}
use ctxlite.Prelude.{filter_by}
use ctxlite.Prelude.{not}
use ctxlite.Install.Merge.{open_code_plugin}
use ctxlite.Prelude.{length}
use ctxlite.Prelude.{◌==◌}
use ctxlite.Prelude.{inl}
use ctxlite.Prelude.{inr}
use ctxlite.Install.Merge.{texts_json}

-- The configuration has no `$schema` that is an empty text, false or 0.
abbrev pub NotBlank : Json → Type 0
NotBlank j = is_blank (dict_get (str "$schema") (object_or_empty (some j))) ≡ false

schema-not_own :
    (kind : ConfigKind) (removing : Bool) (j : Json)
    → is_own kind (str "$schema") ≡ false
    → NotBlank j
    → is_blank (dict_get (str "$schema") (apply_config_change kind (some j) removing).next) ≡ false
schema-not_own kind removing j h k =
    rw (apply_config_change-keeps kind (some j) removing (str "$schema") h) k

url-not_blank : is_blank (some schema_url) ≡ false
unfolding is_blank is_falsy str text_eq
url-not_blank = refl

nullish_or-not_blank :
    (v : Option Json) → is_blank v ≡ false → is_blank (some (nullish_or v schema_url)) ≡ false
unfolding nullish_or
nullish_or-not_blank none h = url-not_blank
nullish_or-not_blank (some null) h = url-not_blank
nullish_or-not_blank (some (bool b)) h = h
nullish_or-not_blank (some (num t)) h = h
nullish_or-not_blank (some (string s)) h = h
nullish_or-not_blank (some (arr vs)) h = h
nullish_or-not_blank (some (obj fs)) h = h

abbrev IsKept : Dict Json → Type 0
IsKept d = is_blank (dict_get (str "$schema") d) ≡ false

plugin_set-IsKept : (w : Json) (m : Dict Json) → IsKept m → IsKept (dict_set (str "plugin") w m)
plugin_set-IsKept w m h = rw ((plugin-schema w w m).1) h

schema_set-IsKept :
    (v : Json) (m : Dict Json) → is_blank (some v) ≡ false → IsKept (dict_set (str "$schema") v m)
schema_set-IsKept v m h = rw (get-set-same (str "$schema") v m) h

merge_opencode-IsKept : (j : Json) → NotBlank j → IsKept (merge_open_code_config (some j)).next
unfolding merge_open_code_config
merge_opencode-IsKept j h =
    let base = object_or_empty (some j) in
    let schema = dict_get (str "$schema") base in
    elim (Bool-cases (has_plugin (plugins_of base))) [
      | inl e ↦ elim (Bool-cases (is_falsy schema)) [
        | inl f ↦ rw (e, f) (schema_set-IsKept schema_url base url-not_blank)
        | inr f ↦ rw (e, f) h
      ]
      | inr e ↦ rw e (
          plugin_set-IsKept _ _
            (schema_set-IsKept (nullish_or schema schema_url) base (nullish_or-not_blank schema h)))
    ]

remove_opencode-IsKept :
    (base : Dict Json) (vs : Option (List Json)) → IsKept base → IsKept (remove_plugin base vs).next
unfolding remove_plugin
remove_opencode-IsKept base none h = h
remove_opencode-IsKept base (some vs) h =
    let plugins = strings_of vs in
    let next_plugins = filter_by (λ p. not (text_eq p open_code_plugin)) plugins in
    elim (Bool-cases (length next_plugins == length plugins)) [
      | inl e ↦ rw e h
      | inr e ↦ rw e (plugin_set-IsKept (texts_json next_plugins) base h)
    ]

next-IsKept :
    (kind : ConfigKind) (removing : Bool) (j : Json)
    → NotBlank j
    → IsKept (apply_config_change kind (some j) removing).next
unfolding is_own own_keys any str text_eq
next-IsKept opencode true j h =
    unfold apply_config_change remove_config remove_open_code_config in remove_opencode-IsKept _ _ h
next-IsKept opencode false j h =
    unfold apply_config_change merge_config in merge_opencode-IsKept j h
next-IsKept opencode_tui removing j h = schema-not_own opencode_tui removing j refl h
next-IsKept claude_code_hooks removing j h = schema-not_own claude_code_hooks removing j refl h
next-IsKept cursor_hooks removing j h = schema-not_own cursor_hooks removing j refl h
next-IsKept mcp removing j h = schema-not_own mcp removing j refl h
next-IsKept claude_code_skill removing j h = schema-not_own claude_code_skill removing j refl h
next-IsKept cursor_skill removing j h = schema-not_own cursor_skill removing j refl h
next-IsKept opencode_skill removing j h = schema-not_own opencode_skill removing j refl h
next-IsKept claude_code_conciseness_rule removing j h =
    schema-not_own claude_code_conciseness_rule removing j refl h
next-IsKept cursor_conciseness_rule removing j h =
    schema-not_own cursor_conciseness_rule removing j refl h

-- A change of a configuration makes no `$schema` blank.
pub next-NotBlank :
    (kind : ConfigKind) (removing : Bool) (j : Json)
    → NotBlank j
    → NotBlank (to_object (apply_config_change kind (some j) removing).next)
next-NotBlank kind removing j h =
    rw (as_object-to_object (apply_config_change kind (some j) removing).next)
      (next-IsKept kind removing j h)
