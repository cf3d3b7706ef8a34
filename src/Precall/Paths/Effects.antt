-- ===== src/Precall/Paths/Effects.antt =====
-- What `optimizeToolArgs` may do to a call, and when it looks at the size of a file
-- (tool-precall.ts).
use ctxlite.Prelude.{
  ℕ, ◌≤◌, ◌≡◌, refl, ap, ◌≢◌, ◌⊎◌, inl, inr, Bool, true, false, ◌&&◌, ◌||◌, not, Option, none, some,
  [], ◌∷◌, arith, Text, str, text_eq, text_eq_iff, Dict, Bool-cases, round_seven_tenths,
}
use ctxlite.Json.{Json, string}
use ctxlite.Host.{Host}
use ctxlite.SmartRead.{is_eligible_for_smart_read}
use ctxlite.Precall.Bash.{PrecallResult, untouched, optimize_bash_command}
use ctxlite.Precall.Bash.Counts.{optimize_bash_command-IsAccounted}
use ctxlite.Ignore.{normalize, is_ignored, load_ignore_patterns}
use ctxlite.Precall.Paths.{
  ReadOptions, blocked_read, read_in, optimize_read_path, optimize_path_tool, optimize_tool_args,
  optimize_command_or, large_file_reason, estimate_full_read_tokens, string_arg, path_arg,
  read_options, given, resolve, is_low_signal, low_signal_reason,
}
use ctxlite.Prelude.{if-either}

-- The same file system with other sizes of files.
unfoldable pub with_sizes : (Text → Option ℕ) → Host → Host
with_sizes sizes host = record host { size_of = sizes }

module _ (host : Host) (sizes : Text → Option ℕ) where
  read_in-sizes :
      (cwd : Option Text) (path : Text) (options : ReadOptions)
      → options.check_size_threshold && not options.has_edit_intent ≡ false
      → read_in (with_sizes sizes host) cwd path options ≡ read_in host cwd path options
  unfolding read_in with_sizes load_ignore_patterns
  read_in-sizes none path options h = refl
  read_in-sizes (some cwd) path options h = rw h refl

  optimize_path_tool-sizes :
      (tool : Text) (args : Dict Json) (p cwd : Option Text) (options : ReadOptions)
      → options.check_size_threshold && not options.has_edit_intent ≡ false
      → optimize_path_tool (with_sizes sizes host) tool args p cwd options
        ≡ optimize_path_tool host tool args p cwd options
  unfolding optimize_path_tool optimize_read_path
  optimize_path_tool-sizes tool args none cwd options h = refl
  optimize_path_tool-sizes tool args (some path) cwd options h =
      rw (read_in-sizes (given cwd) path options h) refl

  -- The size of a file is looked at for the tool `read` alone, where the caller enforces the
  -- threshold and the path has not been engaged: otherwise the result is the same whatever the sizes.
  pub optimize_tool_args-sizes :
      (tool : Text) (args : Dict Json) (cwd : Option Text) (has_edit_intent enforce : Bool)
      → (enforce ≡ false) ⊎ ((has_edit_intent ≡ true) ⊎ (tool ≢ str "read"))
      → optimize_tool_args (with_sizes sizes host) tool args cwd has_edit_intent enforce
        ≡ optimize_tool_args host tool args cwd has_edit_intent enforce
  unfolding optimize_tool_args
  optimize_tool_args-sizes tool args cwd has_edit_intent enforce h =
      ap (λ r. optimize_command_or tool (string_arg (str "command") args) r)
        (optimize_path_tool-sizes tool args (given (path_arg args)) cwd
          (read_options tool has_edit_intent enforce)
          (ground (arith, text_eq_iff tool (str "read"))))

-- What a call may become: it is left as it is; or a command is rewritten, which saves something; or a
-- read is stopped, with a reason.
pub record IsEffect (tool : Text) (args : Dict Json) (r : PrecallResult) : Type 0 where
  pub modified_command :
      r.modified ≡ true
      → (tool ≡ str "bash") × (r.blocked ≡ false) × (200 ≤ r.estimated_tokens_saved)
  pub blocked_path :
      r.blocked ≡ true
      → ((tool ≡ str "read") ⊎ (tool ≡ str "glob"))
        × (r.modified ≡ false)
        × (r.block_reason ≢ none)
        × ((path : Text) × (path_arg args ≡ some path) × (r.args ≡ (str "path", string path) ∷ []))
  pub not_touched : r.modified ≡ false → r.blocked ≡ false → r.estimated_tokens_saved ≡ 0

untouched-IsEffect : (tool : Text) (args others : Dict Json) → IsEffect tool args (untouched others)
unfolding untouched
untouched-IsEffect tool args others = record {
  modified_command = λ h. cc;
  blocked_path = λ h. cc;
  not_touched = λ h k. refl;
}

bash-IsEffect :
    (tool command : Text) (args : Dict Json)
    → tool ≡ str "bash"
    → IsEffect tool args (optimize_bash_command command)
bash-IsEffect tool command args e =
    let a = optimize_bash_command-IsAccounted command in
    record {
      modified_command = λ h.
          let (labels, some_label, saved, text) = a.saved h in (e, a.not_blocked.0, omega arith);
      blocked_path = λ h. cc (a.not_blocked.0);
      not_touched = λ h k. (a.kept h).1;
    }

-- A read of the tool `tool`, whose arguments give `path`.
abbrev IsRead : Text → Dict Json → Text → Type 0
IsRead tool args path = ((tool ≡ str "read") ⊎ (tool ≡ str "glob")) × (path_arg args ≡ some path)

blocked_read-IsEffect :
    (tool : Text) (args : Dict Json) (path reason : Text) (saved : ℕ)
    → IsRead tool args path
    → IsEffect tool args (blocked_read path reason saved)
unfolding blocked_read
blocked_read-IsEffect tool args path reason saved (t, e) = record {
  modified_command = λ h. cc;
  blocked_path = λ h. (t, refl, (λ k. cc k), (path, e, refl));
  not_touched = λ h k. cc;
}

optimize_read_path-IsEffect :
    (host : Host) (tool : Text) (args : Dict Json) (path : Text) (cwd : Option Text)
    (options : ReadOptions)
    → IsRead tool args path
    → IsEffect tool args (optimize_read_path host path cwd options)
unfolding optimize_read_path read_in
optimize_read_path-IsEffect host tool args path cwd options r =
    let kept = untouched-IsEffect tool args ((str "path", string path) ∷ []) in
    if-either (IsEffect tool args) (is_low_signal (normalize path)) _ _
      (λ h. blocked_read-IsEffect tool args path (low_signal_reason path) 2000 r)
      (λ h. elim (given cwd) as (λ o. IsEffect tool args (read_in host o path options)) [
        | none ↦ kept
        | some dir ↦
            let ignored = is_ignored (normalize path) (load_ignore_patterns host dir) in
            let file = resolve host dir path in
            let large =
              (options.check_size_threshold && not options.has_edit_intent)
              && is_eligible_for_smart_read host file in
            let saved = round_seven_tenths (estimate_full_read_tokens host file) in
            if-either (IsEffect tool args) ignored _ _
              (λ h. blocked_read-IsEffect tool args path (low_signal_reason path) 2000 r)
              (λ h.
                if-either (IsEffect tool args) large _ _
                  (λ k. blocked_read-IsEffect tool args path (large_file_reason path) saved r)
                  (λ k. kept))
      ])

pub given-some : (o : Option Text) (t : Text) → given o ≡ some t → o ≡ some t
unfolding given
given-some none t h = cc
given-some (some []) t h = cc
given-some (some (c ∷ s)) t h = h

optimize_path_tool-IsEffect :
    (host : Host) (tool : Text) (args : Dict Json) (p cwd : Option Text) (options : ReadOptions)
    → given (path_arg args) ≡ p
    → IsEffect tool args (optimize_path_tool host tool args p cwd options)
unfolding optimize_path_tool
optimize_path_tool-IsEffect host tool args none cwd options h = untouched-IsEffect tool args args
optimize_path_tool-IsEffect host tool args (some path) cwd options h =
    elim (Bool-cases (text_eq tool (str "read") || text_eq tool (str "glob"))) [
      | inl e ↦ rw e (
          optimize_read_path-IsEffect host tool args path cwd options (
            ground (arith, text_eq_iff tool (str "read"), text_eq_iff tool (str "glob")),
            given-some (path_arg args) path h,
          ))
      | inr e ↦ rw e (untouched-IsEffect tool args args)
    ]

optimize_command_or-IsEffect :
    (tool : Text) (args : Dict Json) (command : Option Text) (other : PrecallResult)
    → IsEffect tool args other
    → IsEffect tool args (optimize_command_or tool command other)
unfolding optimize_command_or
optimize_command_or-IsEffect tool args none other h = h
optimize_command_or-IsEffect tool args (some command) other h =
    elim (Bool-cases (text_eq tool (str "bash"))) [
      | inl e ↦ rw e (bash-IsEffect tool command args ((text_eq_iff tool (str "bash")).0 e))
      | inr e ↦ rw e h
    ]

-- Whatever the tool, its arguments, the directory, the files and the flags, `optimizeToolArgs` does
-- one thing to a call at most: only a call of `bash` is modified, which saves at least 200 tokens;
-- only one of `read` or `glob` with a path is blocked, with a reason and the path as its arguments;
-- and a call that is neither modified nor blocked saves nothing.
pub optimize_tool_args-IsEffect :
    (host : Host) (tool : Text) (args : Dict Json) (cwd : Option Text)
    (has_edit_intent enforce : Bool)
    → IsEffect tool args (optimize_tool_args host tool args cwd has_edit_intent enforce)
unfolding optimize_tool_args
optimize_tool_args-IsEffect host tool args cwd has_edit_intent enforce =
    optimize_command_or-IsEffect tool args (string_arg (str "command") args) _ (
      optimize_path_tool-IsEffect host tool args (given (path_arg args)) cwd
        (read_options tool has_edit_intent enforce) refl)
