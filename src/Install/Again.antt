-- ===== src/Install/Again.antt =====
-- About a change to a configuration that is made again (install/merge.ts).
use ctxlite.Prelude.{
  ◌≡◌, refl, ◌∙◌, inl, inr, Bool, true, false, Option, none, some, [], ◌∷◌, ◌++◌, str, text_eq,
  Dict, dict_get, dict_set, get-set, Bool-cases,
}
use ctxlite.Json.{Json, null, bool, num, string, arr, obj}
use ctxlite.Json.Stringify.{stringify}
use ctxlite.Install.Merge.{
  as_object, object_or_empty, to_object, to_array, nullish_or, is_falsy, default_mcp_entry,
  texts_json, entry_fields, equals_text, same_json, entries_equal, merge_mcp_config,
  open_code_plugin, plugins_of, has_plugin, merge_open_code_config, merge_open_code_tui_config,
}
use ctxlite.Install.Merge.{schema_url, is_current}
use ctxlite.Install.Written.{
  as_object-to_object, get-set-same, plugins_of-set, has_plugin-append, written_json,
}

pub tui-again :
    (existing : Option Json)
    → (merge_open_code_tui_config (written_json (merge_open_code_tui_config existing))).changed
      ≡ false
unfolding merge_open_code_tui_config
tui-again existing =
    let base = object_or_empty existing in
    let next =
      dict_set (str "plugin") (texts_json (plugins_of base ++ open_code_plugin ∷ [])) base in
    elim (Bool-cases (has_plugin (plugins_of base))) [
      | inl e ↦ rw (e, as_object-to_object base, e) refl
      | inr e ↦
          rw
            (
              e,
              as_object-to_object next,
              plugins_of-set (plugins_of base ++ open_code_plugin ∷ []) base,
              has_plugin-append (plugins_of base),
            )
            refl
    ]

-- A `$schema` that is falsy and neither missing nor null: an empty text, false or 0.
unfoldable pub is_blank : Option Json → Bool
is_blank none = false
is_blank (some null) = false
is_blank (some v) = is_falsy (some v)

not_blank-falsy :
    (v : Option Json) → is_blank v ≡ false → is_falsy (some (nullish_or v schema_url)) ≡ false
unfolding is_blank is_falsy nullish_or str text_eq
not_blank-falsy none h = refl
not_blank-falsy (some null) h = refl
not_blank-falsy (some (bool b)) h = h
not_blank-falsy (some (num t)) h = h
not_blank-falsy (some (string s)) h = h
not_blank-falsy (some (arr vs)) h = h
not_blank-falsy (some (obj fs)) h = h

schema_url-falsy : is_falsy (some schema_url) ≡ false
unfolding is_falsy str text_eq
schema_url-falsy = refl

pub plugin-schema :
    (v w : Json) (m : Dict Json)
    → (dict_get (str "plugin") (dict_set (str "$schema") v m) ≡ dict_get (str "plugin") m)
      × (dict_get (str "$schema") (dict_set (str "plugin") w m) ≡ dict_get (str "$schema") m)
plugin-schema v w m =
    let differ : text_eq (str "$schema") (str "plugin") ≡ false = unfold str text_eq in refl in
    let differ' : text_eq (str "plugin") (str "$schema") ≡ false = unfold str text_eq in refl in
    (
      get-set (str "$schema") (str "plugin") v m ∙ rw differ refl,
      get-set (str "plugin") (str "$schema") w m ∙ rw differ' refl,
    )

pub opencode-again :
    (existing : Option Json)
    → is_blank (dict_get (str "$schema") (object_or_empty existing)) ≡ false
    → (merge_open_code_config (written_json (merge_open_code_config existing))).changed ≡ false
unfolding merge_open_code_config
opencode-again existing h =
    let base = object_or_empty existing in
    let schema = dict_get (str "$schema") base in
    let with_schema = dict_set (str "$schema") (nullish_or schema schema_url) base in
    let plugins = plugins_of base ++ open_code_plugin ∷ [] in
    let repaired = dict_set (str "$schema") schema_url base in
    let extended = dict_set (str "plugin") (texts_json plugins) with_schema in
    elim (Bool-cases (has_plugin (plugins_of base))) [
      | inl e ↦ elim (Bool-cases (is_falsy schema)) [
        | inl f ↦
            rw
              (
                e,
                f,
                as_object-to_object repaired,
                (plugin-schema schema_url schema_url base).0,
                e,
                get-set-same (str "$schema") schema_url base,
                schema_url-falsy,
              )
              refl
        | inr f ↦ rw (e, f, as_object-to_object base, e, f) refl
      ]
      | inr e ↦
          rw
            (
              e,
              as_object-to_object extended,
              plugins_of-set plugins with_schema,
              has_plugin-append (plugins_of base),
              (plugin-schema schema_url (texts_json plugins) with_schema).1,
              get-set-same (str "$schema") (nullish_or schema schema_url) base,
              not_blank-falsy schema h,
            )
            refl
    ]

default_entry-equal : entries_equal (entry_fields default_mcp_entry) default_mcp_entry ≡ true
unfolding entries_equal entry_fields equals_text same_json nullish_or texts_json to_array to_object
    dict_get str text_eq stringify
default_entry-equal = refl

pub mcp-again :
    (existing : Option Json)
    → (merge_mcp_config
        (written_json (merge_mcp_config existing default_mcp_entry))
        default_mcp_entry).changed
      ≡ false
unfolding merge_mcp_config
mcp-again existing =
    let base = object_or_empty existing in
    let servers = object_or_empty (dict_get (str "mcpServers") base) in
    let entry = to_object (entry_fields default_mcp_entry) in
    let own = dict_set (str "ctxlite") entry servers in
    elim (Bool-cases
      (is_current (as_object (dict_get (str "ctxlite") servers)) default_mcp_entry)) [
        | inl e ↦
            rw
              (
                e,
                as_object-to_object (dict_set (str "mcpServers") (to_object servers) base),
                get-set-same (str "mcpServers") (to_object servers) base,
                as_object-to_object servers,
                e,
              )
              refl
        | inr e ↦
            rw
              (
                e,
                as_object-to_object (dict_set (str "mcpServers") (to_object own) base),
                get-set-same (str "mcpServers") (to_object own) base,
                as_object-to_object own,
                get-set-same (str "ctxlite") entry servers,
                as_object-to_object (entry_fields default_mcp_entry),
                default_entry-equal,
              )
              refl
      ]
