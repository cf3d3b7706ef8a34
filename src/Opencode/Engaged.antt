-- ===== src/Opencode/Engaged.antt =====
-- Which paths are engaged after a hook (precall-state.ts, tool-precall-hook.ts).
use ctxlite.Prelude.{
  ℕ, ◌≡◌, refl, ap, ◌∙◌, inl, inr, Bool, true, false, ◌&&◌, ◌||◌, Option, none, some, List, [], ◌∷◌,
  ◌++◌, arith, Text, text_eq, text_eq_iff, Dict, dict_get, get-set, any, if◌then◌else◌, Bool-cases,
}
use ctxlite.Host.{Host}
use ctxlite.Precall.Bash.{PrecallResult}
use ctxlite.Precall.Paths.{given, path_arg, optimize_tool_args}
use ctxlite.Precall.Paths.Effects.{with_sizes, optimize_tool_args-sizes}
use ctxlite.Stats.{Moment}
use ctxlite.Opencode.{
  Plugin, mark_precall_pending, set_of, has_path, add_path, mark_path_engaged, has_path_engagement,
}
use ctxlite.Opencode.Hooks.{
  ToolCall, is_engaging, log_to, BeforeOutput, engage, has_edit_intent, apply_precall,
  precall_skips, tool_precall_hook,
}

has_path-append :
    (q p : Text) (paths : List Text)
    → has_path q (paths ++ p ∷ []) ≡ has_path q paths || text_eq p q
unfolding has_path any
has_path-append q p [] = ground arith
has_path-append q p (r ∷ paths) = ground (arith, has_path-append q p paths)

has_path-congruence :
    (p q : Text) (paths : List Text)
    → has_path p paths ≡ true
    → text_eq p q ≡ true
    → has_path q paths ≡ true
has_path-congruence p q paths h e = rw ((text_eq_iff p q).0 e) at h

has_path-add_path :
    (q p : Text) (paths : List Text)
    → has_path q (add_path p paths) ≡ has_path q paths || text_eq p q
unfolding add_path
has_path-add_path q p paths =
    ground (arith, has_path-append q p paths, has_path-congruence p q paths)

set-if :
    (b : Bool) (x : List Text) (o : Option (List Text))
    → set_of (if b then some x else o) ≡ (if b then x else set_of o)
set-if true x o = refl
set-if false x o = refl

engagement-mark :
    (s t p q : Text) (a : Plugin)
    → has_path_engagement t q (mark_path_engaged s p a)
      ≡ has_path_engagement t q a || text_eq s t && text_eq p q
unfolding has_path_engagement mark_path_engaged
engagement-mark s t p q a =
    let paths = set_of (dict_get s a.engaged_paths) in
    rw
      (
        get-set s t (add_path p paths) a.engaged_paths,
        set-if (text_eq s t) (add_path p paths) (dict_get t a.engaged_paths),
      )
      (elim (Bool-cases (text_eq s t)) [
        | inl e ↦ rw e (
            has_path-add_path q p paths
            ∙ ap (λ (k : Text). has_path q (set_of (dict_get k a.engaged_paths)) || text_eq p q)
                ((text_eq_iff s t).0 e))
        | inr e ↦ rw e (ground arith)
      ])

-- The call engages the path `q` of the session `t`: its tool is one that does, and the path is its
-- argument, which is not empty.
unfoldable pub engages : ToolCall → Option Text → Text → Text → Bool
engages c none t q = false
engages c (some path) t q = is_engaging c.tool && (text_eq c.session_id t && text_eq path q)

engagement-engage :
    (c : ToolCall) (path : Option Text) (t q : Text) (a : Plugin)
    → has_path_engagement t q (engage c path a) ≡ has_path_engagement t q a || engages c path t q
unfolding engage engages
engagement-engage c none t q a = ground arith
engagement-engage c (some path) t q a = ground (arith, engagement-mark c.session_id t path q a)

-- What is done with the result of `optimizeToolArgs` leaves the engaged paths alone.
engaged-apply_precall :
    (m : Moment) (c : ToolCall) (output : BeforeOutput) (r : PrecallResult) (a : Plugin)
    → (apply_precall m c output r a).1.engaged_paths ≡ a.engaged_paths
unfolding apply_precall log_to mark_precall_pending
engaged-apply_precall m c output r a = ground arith

engaged-tool_precall_hook :
    (host : Host) (cwd : Text) (m : Moment) (c : ToolCall) (output : BeforeOutput) (a : Plugin)
    → (tool_precall_hook host cwd m c output a).1.engaged_paths
      ≡ (engage c (given (path_arg output.args)) a).engaged_paths
unfolding tool_precall_hook
engaged-tool_precall_hook host cwd m c output a =
    let b = engage c (given (path_arg output.args)) a in
    let r =
      optimize_tool_args host c.tool output.args (some cwd)
        (has_edit_intent c (path_arg output.args) b) true in
    ground (arith, engaged-apply_precall m c output r b)

-- After a call of the precall hook, a path is engaged if it was before, or if the call is one of
-- smart_read, edit, write, patch or multiedit in this session with this path as its argument; so no
-- read, stopped or not, engages a path, and no call takes an engagement back.
pub engagement-tool_precall_hook :
    (host : Host) (cwd : Text) (m : Moment) (c : ToolCall) (output : BeforeOutput) (a : Plugin)
    (t q : Text)
    → has_path_engagement t q (tool_precall_hook host cwd m c output a).1
      ≡ has_path_engagement t q a || engages c (given (path_arg output.args)) t q
unfolding has_path_engagement
engagement-tool_precall_hook host cwd m c output a t q =
    ap (λ (e : Dict (List Text)). has_path q (set_of (dict_get t e)))
      (engaged-tool_precall_hook host cwd m c output a)
    ∙ engagement-engage c (given (path_arg output.args)) t q a

has_edit_intent-engaged :
    (c : ToolCall) (o : Option Text) (path : Text) (a : Plugin)
    → o ≡ some path
    → has_path_engagement c.session_id path a ≡ true
    → has_edit_intent c o (engage c (given o) a) ≡ true
unfolding has_edit_intent
has_edit_intent-engaged c o path a e h =
    rw e (engagement-engage c (given (some path)) c.session_id path a ∙ rw h refl)

-- A full read of an engaged path is not stopped for its size: where the path of a call is engaged in its
-- session, the precall hook does the same whatever the sizes of the files.
pub tool_precall_hook-engaged :
    (host : Host) (sizes : Text → Option ℕ) (cwd : Text) (m : Moment) (c : ToolCall)
    (output : BeforeOutput) (a : Plugin) (path : Text)
    → path_arg output.args ≡ some path
    → has_path_engagement c.session_id path a ≡ true
    → tool_precall_hook (with_sizes sizes host) cwd m c output a
      ≡ tool_precall_hook host cwd m c output a
unfolding tool_precall_hook
tool_precall_hook-engaged host sizes cwd m c output a path e h =
    let b = engage c (given (path_arg output.args)) a in
    let intent = has_edit_intent c (path_arg output.args) b in
    ap
      (λ (r : PrecallResult).
        if precall_skips c.tool then (output, b) else apply_precall m c output r b)
      (optimize_tool_args-sizes host sizes c.tool output.args (some cwd) intent true
        (inr (inl (has_edit_intent-engaged c (path_arg output.args) path a e h))))
