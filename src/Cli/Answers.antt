-- ===== src/Cli/Answers.antt =====
-- What the hooks of Claude Code and Cursor may answer (hook.ts, cursor-hook.ts).
use ctxlite.Prelude.{
  ℕ, ◌≡◌, refl, ap, ◌∙◌, ◌⊎◌, inl, inr, false, Option, none, some, Text, str, text_eq, Dict,
  dict_get, dict_set, get-set, or_else, Option-cases, Bool-cases,
}
use ctxlite.Json.{Json, string}
use ctxlite.Host.{Host}
use ctxlite.Precall.Bash.{PrecallResult}
use ctxlite.Precall.Paths.{as_string, given}
use ctxlite.Precall.Paths.Effects.{
  with_sizes, optimize_tool_args-sizes, IsEffect, optimize_tool_args-IsEffect,
}
use ctxlite.Install.Merge.{as_object, to_object}
use ctxlite.Install.Written.{as_object-to_object, get-set-same}
use ctxlite.Stats.{Moment, Store}
use ctxlite.Cli.{
  Answer, Dialect, input_text, tool_input, fallback_reason, answer_precall, pre_tool_use_named,
  pre_tool_use, text_of_fields, text_from_tool_output, rebuild_tool_output, rebuild_fields,
}

named-sizes :
    (d : Dialect) (host : Host) (sizes : Text → Option ℕ) (cwd : Text) (m : Moment)
    (input : Option Json) (name : Option Text) (s : Store)
    → pre_tool_use_named d (with_sizes sizes host) cwd m input name s
      ≡ pre_tool_use_named d host cwd m input name s
unfolding pre_tool_use_named
named-sizes d host sizes cwd m input none s = refl
named-sizes d host sizes cwd m input (some name) s =
    ap
      (λ (r : PrecallResult).
        answer_precall d m (d.tool_from name) (input_text d.session_field input) r s)
      (optimize_tool_args-sizes host sizes (d.tool_from name) (tool_input input) (some cwd) false
        false (inl refl))

-- The hooks of Claude Code and Cursor do not look at the size of a file: whatever the input, answer and
-- table are the same with other sizes.
pub pre_tool_use-sizes :
    (d : Dialect) (host : Host) (sizes : Text → Option ℕ) (cwd : Text) (m : Moment)
    (input : Option Json) (s : Store)
    → pre_tool_use d (with_sizes sizes host) cwd m input s ≡ pre_tool_use d host cwd m input s
unfolding pre_tool_use
pre_tool_use-sizes d host sizes cwd m input s =
    named-sizes d host sizes cwd m input (given (input_text "tool_name" input)) s

-- A hook says nothing and logs nothing; or it denies a read or a listing; or it changes the input of a
-- shell command.
unfoldable pub IsAnswer : Dialect → Option Text → Store → Answer → Type 0
IsAnswer d name s (answer, t) =
    ((answer ≡ none) × (t ≡ s))
    ⊎ ((called : Text) × (name ≡ some called)
        × (((reason : Text) × (answer ≡ some (d.deny reason))
              × ((d.tool_from called ≡ str "read") ⊎ (d.tool_from called ≡ str "glob")))
            ⊎ ((args : Dict Json) × (answer ≡ some (d.update args))
                × (d.tool_from called ≡ str "bash"))))

precall-IsAnswer :
    (d : Dialect) (m : Moment) (name : Text) (session_id : Option Text) (args : Dict Json)
    (r : PrecallResult) (s : Store)
    → IsEffect (d.tool_from name) args r
    → IsAnswer d (some name) s (answer_precall d m (d.tool_from name) session_id r s)
unfolding IsAnswer answer_precall
precall-IsAnswer d m name session_id args r s e = elim (Bool-cases r.blocked) [
  | inl b ↦
      rw b
        (inr (name, refl, inl (or_else r.block_reason fallback_reason, refl, (e.blocked_path b).0)))
  | inr b ↦ elim (Bool-cases r.modified) [
    | inl c ↦ rw (b, c) (inr (name, refl, inr (r.args, refl, (e.modified_command c).0)))
    | inr c ↦ rw (b, c) (inl (refl, refl))
  ]
]

named-IsAnswer :
    (d : Dialect) (host : Host) (cwd : Text) (m : Moment) (input : Option Json) (name : Option Text)
    (s : Store)
    → IsAnswer d name s (pre_tool_use_named d host cwd m input name s)
unfolding pre_tool_use_named
named-IsAnswer d host cwd m input none s = unfold IsAnswer in inl (refl, refl)
named-IsAnswer d host cwd m input (some name) s =
    precall-IsAnswer d m name (input_text d.session_field input) (tool_input input) _ s (
      optimize_tool_args-IsEffect host (d.tool_from name) (tool_input input) (some cwd) false false)

-- Whatever the input, the files and the table, a hook before a tool says nothing and logs nothing; or it
-- denies a call whose name stands for read or glob; or it changes the input of one that stands for bash.
pub pre_tool_use-IsAnswer :
    (d : Dialect) (host : Host) (cwd : Text) (m : Moment) (input : Option Json) (s : Store)
    → IsAnswer d (given (input_text "tool_name" input)) s (pre_tool_use d host cwd m input s)
unfolding pre_tool_use
pre_tool_use-IsAnswer d host cwd m input s =
    named-IsAnswer d host cwd m input (given (input_text "tool_name" input)) s

text_of-to_object :
    (fields : Dict Json) → text_from_tool_output (some (to_object fields)) ≡ text_of_fields fields
unfolding text_from_tool_output
text_of-to_object fields = rw (as_object-to_object fields) (unfold as_string to_object in refl)

as_string-string : (t : Text) → as_string (some (string t)) ≡ some t
unfolding as_string
as_string-string t = refl

text_of_string : (t : Text) → text_from_tool_output (some (string t)) ≡ some t
unfolding text_from_tool_output as_string
text_of_string t = refl

rebuild_fields-text :
    (content : Option Text) (fields : Dict Json) (new : Text)
    → as_string (dict_get (str "content") fields) ≡ content
    → text_from_tool_output (some (rebuild_fields content fields new)) ≡ some new
unfolding text_of_fields
rebuild_fields-text (some old) fields new e =
    text_of-to_object (dict_set (str "content") (string new) fields)
    ∙ rw (get-set-same (str "content") (string new) fields, as_string-string new) refl
rebuild_fields-text none fields new e =
    let differ : text_eq (str "stdout") (str "content") ≡ false = unfold str text_eq in refl in
    let written = dict_set (str "stdout") (string new) fields in
    let content : dict_get (str "content") written ≡ dict_get (str "content") fields =
      rw (get-set (str "stdout") (str "content") (string new) fields, differ) refl in
    let read_back : text_of_fields written ≡ some new =
      rw (content, e, get-set-same (str "stdout") (string new) fields, as_string-string new) refl in
    elim (Option-cases (as_string (dict_get (str "stdout") fields))) [
      | inl n ↦ rw (rebuild_fields, n) (text_of_string new)
      | inr (old, n) ↦ rw (rebuild_fields, n) (text_of-to_object written ∙ read_back)
    ]

-- The output that a hook puts in place of the tool's reads as the new text, whatever the shape of the
-- tool's output.
pub rebuild-text :
    (original : Option Json) (new : Text)
    → text_from_tool_output (some (rebuild_tool_output original new)) ≡ some new
unfolding rebuild_tool_output
rebuild-text original new = elim (Option-cases (as_object original)) [
  | inl e ↦ rw e (unfold text_from_tool_output as_string in refl)
  | inr (fields, e) ↦
      rw e (rebuild_fields-text (as_string (dict_get (str "content") fields)) fields new refl)
]
