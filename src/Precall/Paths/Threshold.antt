-- ===== src/Precall/Paths/Threshold.antt =====
-- About the reads that are stopped for the size of their file (tool-precall.ts).
use ctxlite.Prelude.{
  ◌≡◌, refl, ap, inl, inr, Bool, true, false, ◌&&◌, not, Option, none, some, arith, Text, str,
  text_eq, text_eq_iff, Dict, Bool-cases, ◌||◌, round_seven_tenths,
}
use ctxlite.Json.{Json}
use ctxlite.Host.{Host}
use ctxlite.SmartRead.{is_eligible_for_smart_read}
use ctxlite.Precall.Bash.{PrecallResult, untouched}
use ctxlite.Ignore.{normalize, is_ignored, load_ignore_patterns}
use ctxlite.Precall.Paths.{
  ReadOptions, blocked_read, read_in, optimize_read_path, optimize_path_tool, optimize_tool_args,
  optimize_command_or, large_file_reason, estimate_full_read_tokens, string_arg, path_arg,
  read_options, given, resolve, is_low_signal,
}
use ctxlite.Prelude.{if-either, or_else}
use ctxlite.Prelude.{if◌then◌else◌}

-- The block that the size of a file asks for: a directory and a path are given, and the file there is
-- eligible for a smart read.
abbrev pub large_read : Host → Option Text → Option Text → Option PrecallResult
large_read host cwd none = none
large_read host none (some path) = none
large_read host (some dir) (some path) =
    if is_eligible_for_smart_read host (resolve host dir path)
    then some (
        blocked_read path (large_file_reason path)
          (round_seven_tenths (estimate_full_read_tokens host (resolve host dir path))))
    else none

-- The block, where sizes count and the result without them lets the call through; that result
-- otherwise.
abbrev pub with_sizes : Bool → Option PrecallResult → PrecallResult → PrecallResult
with_sizes counts large lenient =
    or_else (if counts && not lenient.blocked then large else none) lenient

with_sizes-false :
    (large : Option PrecallResult) (lenient : PrecallResult)
    → lenient ≡ with_sizes false large lenient
with_sizes-false large lenient = refl

with_sizes-blocked :
    (counts : Bool) (large : Option PrecallResult) (lenient : PrecallResult)
    → lenient.blocked ≡ true
    → lenient ≡ with_sizes counts large lenient
with_sizes-blocked true large lenient e = rw e refl
with_sizes-blocked false large lenient e = refl

with_sizes-none :
    (counts : Bool) (lenient : PrecallResult) → lenient ≡ with_sizes counts none lenient
with_sizes-none counts lenient =
    if-either (λ o. lenient ≡ or_else o lenient) (counts && not lenient.blocked) none none
      (λ e. refl) (λ e. refl)

module _ (host : Host) (lenient : ReadOptions)
    (no_check : lenient.check_size_threshold ≡ false) where
  read_in-with_sizes :
      (cwd : Option Text) (path : Text) (options : ReadOptions)
      → read_in host cwd path options
        ≡ with_sizes
            (options.check_size_threshold && not options.has_edit_intent)
            (large_read host cwd (some path))
            (read_in host cwd path lenient)
  unfolding read_in untouched
  read_in-with_sizes none path options = with_sizes-none _ _
  read_in-with_sizes (some dir) path options =
      elim (Bool-cases (is_ignored (normalize path) (load_ignore_patterns host dir))) [
        | inl e ↦ rw e (
            with_sizes-blocked (options.check_size_threshold && not options.has_edit_intent)
              (large_read host (some dir) (some path)) _ (unfold blocked_read in refl))
        | inr e ↦ elim (Bool-cases (options.check_size_threshold && not options.has_edit_intent)) [
          | inr k ↦ rw (e, k, no_check) refl
          | inl k ↦ elim (Bool-cases (is_eligible_for_smart_read host (resolve host dir path))) [
            | inr l ↦ rw (e, k, no_check, l) refl
            | inl l ↦ rw (e, k, no_check, l) refl
          ]
        ]
      ]

  optimize_read_path-with_sizes :
      (cwd : Option Text) (path : Text) (options : ReadOptions)
      → optimize_read_path host path cwd options
        ≡ with_sizes
            (options.check_size_threshold && not options.has_edit_intent)
            (large_read host (given cwd) (some path))
            (optimize_read_path host path cwd lenient)
  unfolding optimize_read_path
  optimize_read_path-with_sizes cwd path options =
      elim (Bool-cases (is_low_signal (normalize path))) [
        | inl e ↦ rw e (
            with_sizes-blocked (options.check_size_threshold && not options.has_edit_intent)
              (large_read host (given cwd) (some path)) _ (unfold blocked_read in refl))
        | inr e ↦ rw e (read_in-with_sizes (given cwd) path options)
      ]

  optimize_path_tool-with_sizes :
      (tool : Text) (args : Dict Json) (p cwd : Option Text) (options : ReadOptions)
      → (text_eq tool (str "read") ≡ false
          → options.check_size_threshold && not options.has_edit_intent ≡ false)
      → optimize_path_tool host tool args p cwd options
        ≡ with_sizes
            (options.check_size_threshold && not options.has_edit_intent)
            (large_read host (given cwd) p)
            (optimize_path_tool host tool args p cwd lenient)
  unfolding optimize_path_tool
  optimize_path_tool-with_sizes tool args none cwd options only_read = with_sizes-none _ _
  optimize_path_tool-with_sizes tool args (some path) cwd options only_read =
      elim (Bool-cases (text_eq tool (str "read") || text_eq tool (str "glob"))) [
        | inl e ↦ rw e (optimize_read_path-with_sizes cwd path options)
        | inr e ↦ rw (e, only_read (ground (arith, e))) refl
      ]

command_or-read :
    (tool : Text) (command : Option Text) (other : PrecallResult)
    → text_eq tool (str "read") ≡ true
    → optimize_command_or tool command other ≡ other
unfolding optimize_command_or
command_or-read tool none other e = refl
command_or-read tool (some command) other e =
    let same : tool ≡ str "read" = ground (arith, text_eq_iff tool (str "read")) in
    rw same (unfold text_eq str in refl)

-- The result of optimizeToolArgs is that where sizes do not count (an engaged path and no
-- enforcement), but for one case: the threshold is enforced, the tool is read, the path has not
-- been engaged, the call is not blocked already, a path and a directory are given, and the file is
-- eligible for smart_read there. Then the call is blocked with the reason for a large file and this
-- path, and the saving is 0.7 of the estimate for the file.
pub optimize_tool_args-threshold :
    (host : Host) (tool : Text) (args : Dict Json) (cwd : Option Text)
    (has_edit_intent enforce : Bool)
    → optimize_tool_args host tool args cwd has_edit_intent enforce
      ≡ with_sizes
          ((enforce && text_eq tool (str "read")) && not has_edit_intent)
          (large_read host (given cwd) (given (path_arg args)))
          (optimize_tool_args host tool args cwd true false)
unfolding optimize_tool_args
optimize_tool_args-threshold host tool args cwd has_edit_intent enforce =
    let command = string_arg (str "command") args in
    let options = read_options tool has_edit_intent enforce in
    let lenient = read_options tool true false in
    let p = given (path_arg args) in
    let only_read : text_eq tool (str "read") ≡ false
        → (enforce && text_eq tool (str "read")) && not has_edit_intent ≡ false =
      λ e. ground (arith, e) in
    let own = optimize_path_tool-with_sizes host lenient refl tool args p cwd options only_read in
    elim (Bool-cases (text_eq tool (str "read"))) [
      | inl e ↦
          rw
            (
              command_or-read tool command (optimize_path_tool host tool args p cwd options) e,
              command_or-read tool command (optimize_path_tool host tool args p cwd lenient) e,
            )
            own
      | inr e ↦
          rw (only_read e) (ap (λ r. optimize_command_or tool command r) (rw (only_read e) at own))
    ]
