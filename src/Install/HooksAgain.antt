-- ===== src/Install/HooksAgain.antt =====
-- About hooks that are added again (install/merge.ts).
use ctxlite.Prelude.{
  ◌≡◌, refl, ◌∙◌, inl, inr, true, false, ◌&&◌, not, Option, some, List, [], ◌∷◌, ◌++◌, arith, Text,
  str, text_eq, Dict, dict_get, dict_set, get-set, or_else, any, starts_with, includes, Bool-cases,
}
use ctxlite.Json.{Json}
use ctxlite.Precall.Paths.{as_string}
use ctxlite.Install.Merge.{as_object, as_array, object_or_empty, to_object, to_array}
use ctxlite.Install.Hooks.{
  is_ctxlite_hook, is_ctxlite_hook_group, hook_group, add_ctxlite_hook_group, with_hooks,
  merge_claude_code_hooks_config, version_first, cursor_hook, merge_cursor_hooks_config,
}
use ctxlite.Install.Written.{as_object-to_object, as_array-to_array, get-set-same, written_json}

has_group-append :
    (list : List Json) (command : Text)
    → is_ctxlite_hook_group (hook_group command) ≡ true
    → any is_ctxlite_hook_group (list ++ hook_group command ∷ []) ≡ true
unfolding any
has_group-append [] command h = ground (arith, h)
has_group-append (g ∷ list) command h = ground (arith, has_group-append list command h)

-- After the first change there is a group in the list, so that a second one is not added.
add_group-again :
    (entries : Option Json) (command : Text)
    → is_ctxlite_hook_group (hook_group command) ≡ true
    → (add_ctxlite_hook_group
        (some (to_array (add_ctxlite_hook_group entries command).entries))
        command).changed
      ≡ false
unfolding add_ctxlite_hook_group
add_group-again entries command h =
    let list = or_else (as_array entries) [] in
    elim (Bool-cases (any is_ctxlite_hook_group list)) [
      | inl e ↦ rw (e, as_array-to_array list, e) refl
      | inr e ↦
          rw
            (
              e,
              as_array-to_array (list ++ hook_group command ∷ []),
              has_group-append list command h,
            )
            refl
    ]

abbrev pre_command : Text
pre_command = str "npx -y @ctxlite/cli hook pre-tool-use"

abbrev post_command : Text
post_command = str "npx -y @ctxlite/cli hook post-tool-use"

hook_groups-found :
    (is_ctxlite_hook_group (hook_group pre_command) ≡ true)
    × (is_ctxlite_hook_group (hook_group post_command) ≡ true)
    × (is_ctxlite_hook cursor_hook ≡ true)
unfolding is_ctxlite_hook_group is_ctxlite_hook hook_group cursor_hook as_object as_array to_array
    to_object as_string dict_get str text_eq includes starts_with any
hook_groups-found = (refl, refl, refl)

-- The two lists of an object of hooks that has them.
pub pre-post :
    (pre post : Json) (hooks : Dict Json)
    → let both = dict_set (str "PostToolUse") post (dict_set (str "PreToolUse") pre hooks) in
      (dict_get (str "PreToolUse") both ≡ some pre)
      × (dict_get (str "PostToolUse") both ≡ some post)
pre-post pre post hooks =
    let differ : text_eq (str "PostToolUse") (str "PreToolUse") ≡ false =
      unfold str text_eq in refl in
    let inner = dict_set (str "PreToolUse") pre hooks in
    (
      get-set (str "PostToolUse") (str "PreToolUse") post inner
          ∙ rw differ (get-set-same (str "PreToolUse") pre hooks),
      get-set-same (str "PostToolUse") post inner,
    )

pub claude-again :
    (existing : Option Json)
    → (merge_claude_code_hooks_config
        (written_json (merge_claude_code_hooks_config existing))).changed
      ≡ false
unfolding merge_claude_code_hooks_config with_hooks
claude-again existing =
    let base = object_or_empty existing in
    let hooks = object_or_empty (dict_get (str "hooks") base) in
    let pre = add_ctxlite_hook_group (dict_get (str "PreToolUse") hooks) pre_command in
    let post = add_ctxlite_hook_group (dict_get (str "PostToolUse") hooks) post_command in
    let both =
      dict_set (str "PostToolUse") (to_array post.entries)
        (dict_set (str "PreToolUse") (to_array pre.entries) hooks) in
    let (pre_there, post_there) = pre-post (to_array pre.entries) (to_array post.entries) hooks in
    elim (Bool-cases (not pre.changed && not post.changed)) [
      | inl e ↦ rw (e, as_object-to_object base, e) refl
      | inr e ↦
          rw
            (
              e,
              as_object-to_object (dict_set (str "hooks") (to_object both) base),
              get-set-same (str "hooks") (to_object both) base,
              as_object-to_object both,
              pre_there,
              post_there,
              add_group-again (dict_get (str "PreToolUse") hooks) pre_command hook_groups-found.0,
              add_group-again (dict_get (str "PostToolUse") hooks) post_command hook_groups-found.1,
            )
            refl
    ]

any-append : (list : List Json) → any is_ctxlite_hook (list ++ cursor_hook ∷ []) ≡ true
unfolding any
any-append [] = ground (arith, hook_groups-found.2)
any-append (h ∷ list) = ground (arith, any-append list)

pub cursor-again :
    (existing : Option Json)
    → (merge_cursor_hooks_config (written_json (merge_cursor_hooks_config existing))).changed
      ≡ false
unfolding merge_cursor_hooks_config
cursor-again existing =
    let base = object_or_empty existing in
    let hooks = object_or_empty (dict_get (str "hooks") base) in
    let list = or_else (as_array (dict_get (str "preToolUse") hooks)) [] in
    let longer = dict_set (str "preToolUse") (to_array (list ++ cursor_hook ∷ [])) hooks in
    elim (Bool-cases (any is_ctxlite_hook list)) [
      | inl e ↦ rw (e, as_object-to_object base, e) refl
      | inr e ↦
          rw
            (
              e,
              as_object-to_object (dict_set (str "hooks") (to_object longer) (version_first base)),
              get-set-same (str "hooks") (to_object longer) (version_first base),
              as_object-to_object longer,
              get-set-same (str "preToolUse") (to_array (list ++ cursor_hook ∷ [])) hooks,
              as_array-to_array (list ++ cursor_hook ∷ []),
              any-append list,
            )
            refl
    ]
