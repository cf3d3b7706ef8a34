-- ===== src/Install/Repeat.antt =====
-- About a removal, and every change, that is made again (install/merge.ts).
use ctxlite.Prelude.{
  ◌≡◌, refl, inl, inr, Bool, true, false, ◌&&◌, not, Option, none, some, List, [], ◌∷◌, map, arith,
  Text, str, text_eq, text_eq_refl, length, Dict, dict_get, dict_set, dict_delete, get-delete,
  filter_by, ◌==◌, Option-cases, Bool-cases,
}
use ctxlite.Json.{Json, string}
use ctxlite.Install.Merge.{
  as_object, as_array, object_or_empty, to_object, to_array, texts_json, remove_server,
  remove_mcp_config, strings_of, open_code_plugin, remove_plugin, remove_open_code_config,
}
use ctxlite.Install.Merge.{has_key}
use ctxlite.Install.Hooks.{
  is_ctxlite_hook, is_ctxlite_hook_group, remove_groups, remove_ctxlite_hook_group, with_hooks,
  remove_claude_hooks, remove_claude_code_hooks_config, remove_cursor_hooks,
  remove_cursor_hooks_config,
}
use ctxlite.Install.Apply.{
  ConfigKind, mcp, opencode, opencode_tui, claude_code_hooks, cursor_hooks, claude_code_skill,
  cursor_skill, opencode_skill, claude_code_conciseness_rule, cursor_conciseness_rule, merge_config,
  remove_config, apply_config_change,
}
use ctxlite.Install.Written.{
  as_object-to_object, as_array-to_array, get-set-same, strings_of-map, written_json,
}
use ctxlite.Install.Again.{is_blank, tui-again, opencode-again, mcp-again}
use ctxlite.Install.HooksAgain.{claude-again, cursor-again, pre-post}

module _ {ℓ} {A : Type ℓ} (p : A → Bool) where
  filter-filter : (xs : List A) → filter_by p (filter_by p xs) ≡ filter_by p xs
  unfolding filter_by
  filter-filter [] = refl
  filter-filter (x ∷ xs) = ground (arith, filter-filter xs)

has_key-delete : (k : Text) (m : Dict Json) → has_key k (dict_delete k m) ≡ false
has_key-delete k m = ground (arith, get-delete k k m, text_eq_refl k)

remove_mcp-again :
    (existing : Option Json)
    → (remove_mcp_config (written_json (remove_mcp_config existing))).changed ≡ false
unfolding remove_mcp_config remove_server
remove_mcp-again existing =
    let base = object_or_empty existing in
    elim (Option-cases (as_object (dict_get (str "mcpServers") base))) [
      | inl e ↦ rw (e, as_object-to_object base, e) refl
      | inr (servers, e) ↦
          let left = dict_delete (str "ctxlite") servers in
          elim (Bool-cases (has_key (str "ctxlite") servers)) [
            | inl f ↦
                rw
                  (
                    e,
                    f,
                    as_object-to_object (dict_set (str "mcpServers") (to_object left) base),
                    get-set-same (str "mcpServers") (to_object left) base,
                    as_object-to_object left,
                    has_key-delete (str "ctxlite") servers,
                  )
                  refl
            | inr f ↦ rw (e, f, as_object-to_object base, e, f) refl
          ]
    ]

remove_opencode-again :
    (existing : Option Json)
    → (remove_open_code_config (written_json (remove_open_code_config existing))).changed ≡ false
unfolding remove_open_code_config remove_plugin texts_json
remove_opencode-again existing =
    let base = object_or_empty existing in
    let keep = λ (p : Text). not (text_eq p open_code_plugin) in
    elim (Option-cases (as_array (dict_get (str "plugin") base))) [
      | inl e ↦ rw (e, as_object-to_object base, e) refl
      | inr (vs, e) ↦
          let left = filter_by keep (strings_of vs) in
          let json = map (λ (t : Text). string t) left in
          elim (Bool-cases (length left == length (strings_of vs))) [
            | inl f ↦ rw (e, f, as_object-to_object base, e, f) refl
            | inr f ↦
                rw
                  (
                    e,
                    f,
                    as_object-to_object (dict_set (str "plugin") (to_array json) base),
                    get-set-same (str "plugin") (to_array json) base,
                    as_array-to_array json,
                    strings_of-map left,
                    filter-filter keep (strings_of vs),
                  )
                  (ground arith)
          ]
    ]

remove_groups-twice :
    (o : Option (List Json)) → (remove_groups (some (remove_groups o).entries)).changed ≡ false
unfolding remove_groups filter_by
remove_groups-twice none = refl
remove_groups-twice (some list) =
    rw (filter-filter (λ (g : Json). not (is_ctxlite_hook_group g)) list) (ground arith)

remove_group-again :
    (entries : Option Json)
    → (remove_ctxlite_hook_group
        (some (to_array (remove_ctxlite_hook_group entries).entries))).changed
      ≡ false
unfolding remove_ctxlite_hook_group
remove_group-again entries =
    rw (as_array-to_array (remove_groups (as_array entries)).entries)
      (remove_groups-twice (as_array entries))

remove_claude-again :
    (existing : Option Json)
    → (remove_claude_code_hooks_config
        (written_json (remove_claude_code_hooks_config existing))).changed
      ≡ false
unfolding remove_claude_code_hooks_config remove_claude_hooks with_hooks
remove_claude-again existing =
    let base = object_or_empty existing in
    elim (Option-cases (as_object (dict_get (str "hooks") base))) [
      | inl e ↦ rw (e, as_object-to_object base, e) refl
      | inr (hooks, e) ↦
          let pre = remove_ctxlite_hook_group (dict_get (str "PreToolUse") hooks) in
          let post = remove_ctxlite_hook_group (dict_get (str "PostToolUse") hooks) in
          let both =
            dict_set (str "PostToolUse") (to_array post.entries)
              (dict_set (str "PreToolUse") (to_array pre.entries) hooks) in
          let (pre_there, post_there) =
            pre-post (to_array pre.entries) (to_array post.entries) hooks in
          elim (Bool-cases (not pre.changed && not post.changed)) [
            | inl f ↦ rw (e, f, as_object-to_object base, e, f) refl
            | inr f ↦
                rw
                  (
                    e,
                    f,
                    as_object-to_object (dict_set (str "hooks") (to_object both) base),
                    get-set-same (str "hooks") (to_object both) base,
                    as_object-to_object both,
                    pre_there,
                    post_there,
                    remove_group-again (dict_get (str "PreToolUse") hooks),
                    remove_group-again (dict_get (str "PostToolUse") hooks),
                  )
                  refl
          ]
    ]

remove_cursor-again :
    (existing : Option Json)
    → (remove_cursor_hooks_config (written_json (remove_cursor_hooks_config existing))).changed
      ≡ false
unfolding remove_cursor_hooks_config remove_cursor_hooks
remove_cursor-again existing =
    let base = object_or_empty existing in
    let hooks = object_or_empty (dict_get (str "hooks") base) in
    let keep = λ (h : Json). not (is_ctxlite_hook h) in
    elim (Option-cases (as_array (dict_get (str "preToolUse") hooks))) [
      | inl e ↦ rw (e, as_object-to_object base, e) refl
      | inr (list, e) ↦
          let left = filter_by keep list in
          let shorter = dict_set (str "preToolUse") (to_array left) hooks in
          elim (Bool-cases (length left == length list)) [
            | inl f ↦ rw (e, f, as_object-to_object base, e, f) refl
            | inr f ↦
                rw
                  (
                    e,
                    f,
                    as_object-to_object (dict_set (str "hooks") (to_object shorter) base),
                    get-set-same (str "hooks") (to_object shorter) base,
                    as_object-to_object shorter,
                    get-set-same (str "preToolUse") (to_array left) hooks,
                    as_array-to_array left,
                    filter-filter keep list,
                  )
                  (ground arith)
          ]
    ]

merge-again :
    (kind : ConfigKind) (existing : Option Json)
    → is_blank (dict_get (str "$schema") (object_or_empty existing)) ≡ false
    → (merge_config kind (written_json (merge_config kind existing))).changed ≡ false
unfolding merge_config
merge-again opencode existing h = opencode-again existing h
merge-again opencode_tui existing h = tui-again existing
merge-again cursor_hooks existing h = cursor-again existing
merge-again claude_code_hooks existing h = claude-again existing
merge-again mcp existing h = mcp-again existing
merge-again claude_code_skill existing h = mcp-again existing
merge-again cursor_skill existing h = mcp-again existing
merge-again opencode_skill existing h = mcp-again existing
merge-again claude_code_conciseness_rule existing h = mcp-again existing
merge-again cursor_conciseness_rule existing h = mcp-again existing

remove-again :
    (kind : ConfigKind) (existing : Option Json)
    → (remove_config kind (written_json (remove_config kind existing))).changed ≡ false
unfolding remove_config
remove-again opencode existing = remove_opencode-again existing
remove-again opencode_tui existing = remove_opencode-again existing
remove-again cursor_hooks existing = remove_cursor-again existing
remove-again claude_code_hooks existing = remove_claude-again existing
remove-again mcp existing = remove_mcp-again existing
remove-again claude_code_skill existing = remove_mcp-again existing
remove-again cursor_skill existing = remove_mcp-again existing
remove-again opencode_skill existing = remove_mcp-again existing
remove-again claude_code_conciseness_rule existing = remove_mcp-again existing
remove-again cursor_conciseness_rule existing = remove_mcp-again existing

-- A change that is made twice is made once: applied to the configuration that it has written, a change
-- of any kind, an addition or a removal, reports that nothing changes, where `$schema` is not blank
-- (an empty text, false or 0).
pub apply_config_change-again :
    (kind : ConfigKind) (existing : Option Json) (remove : Bool)
    → is_blank (dict_get (str "$schema") (object_or_empty existing)) ≡ false
    → (apply_config_change kind
        (written_json (apply_config_change kind existing remove))
        remove).changed
      ≡ false
unfolding apply_config_change
apply_config_change-again kind existing true h = remove-again kind existing
apply_config_change-again kind existing false h = merge-again kind existing h
