-- ===== src/Opencode/Runs.antt =====
-- What holds in every state that the hooks can reach (packages/opencode/src).
use ctxlite.Prelude.{
  ◌≤◌, inl, inr, Bool, true, false, ◌&&◌, ◌||◌, Option, none, some, List, [], ◌∷◌, arith, Text,
  text_eq, Dict, dict_get, dict_set, dict_delete, All, ltb, if◌then◌else◌, Option-cases,
  is_positive, Bool-cases,
}
use ctxlite.Json.{Json}
use ctxlite.Host.{Host}
use ctxlite.Precall.Bash.{PrecallResult}
use ctxlite.Precall.Paths.{given, path_arg}
use ctxlite.Precall.Paths.Effects.{IsEffect, optimize_tool_args-IsEffect}
use ctxlite.Grep.{compress_output_for_tool}
use ctxlite.Context.Sweep.{Counts}
use ctxlite.Stats.{Source, Moment, Store}
use ctxlite.Stats.Loggers.{OptimizationLog}
use ctxlite.Stats.Log.{IsTable, log_optimization_savings-IsTable}
use ctxlite.Opencode.{
  PrecallPending, Plugin, key, mark_precall_pending, take_precall_pending, mark_path_engaged,
}
use ctxlite.Opencode.Hooks.{
  ToolCall, BeforeOutput, TransformMessage, precall_skips, compress_skips, log_to, engage,
  has_edit_intent, apply_precall, tool_precall_hook, log_pending, apply_compress,
  tool_compress_hook, log_pass, messages_transform_hook,
}

-- One call of a hook, in whatever order the host calls them.
pub data Step : Plugin → Plugin → Type 0 where
  before :
      {p : Plugin} (host : Host) (cwd : Text) (m : Moment) (c : ToolCall) (output : BeforeOutput)
      → Step p (tool_precall_hook host cwd m c output p).1
  after :
      {p : Plugin} (m n : Moment) (c : ToolCall) (output : Text)
      → Step p (tool_compress_hook m n c output p).1
  transform :
      {p : Plugin} (m n : Moment) (messages : List TransformMessage)
      → Step p (messages_transform_hook m n messages p).1

-- The states that a plugin reaches from its start, with the table that it finds.
pub data Reachable : Plugin → Type 0 where
  start :
      (store : Store)
      → IsTable store.rows
      → Reachable (record { pending = []; engaged_paths = []; store = store })
  next : {p q : Plugin} → Reachable p → Step p q → Reachable q

-- Every saving that waits for its call is at least 200 tokens.
abbrev IsWaiting : Text × PrecallPending → Type 0
IsWaiting (k, entry) = 200 ≤ entry.estimated_tokens_saved

pub record IsSound (p : Plugin) : Type 0 where
  pub table : IsTable p.store.rows
  pub waiting : All IsWaiting p.pending

All-dict_set :
    (k : Text) (entry : PrecallPending) (m : Dict PrecallPending)
    → 200 ≤ entry.estimated_tokens_saved
    → All IsWaiting m
    → All IsWaiting (dict_set k entry m)
unfolding dict_set
All-dict_set k entry [] h a = (h, tt)
All-dict_set k entry ((j, e) ∷ m) h (b, a) = elim (Bool-cases (text_eq j k)) [
  | inl e' ↦ rw e' (h, a)
  | inr e' ↦ rw e' (b, All-dict_set k entry m h a)
]

All-dict_delete :
    (k : Text) (m : Dict PrecallPending) → All IsWaiting m → All IsWaiting (dict_delete k m)
unfolding dict_delete
All-dict_delete k [] a = tt
All-dict_delete k ((j, e) ∷ m) (b, a) = elim (Bool-cases (text_eq j k)) [
  | inl e' ↦ rw e' (All-dict_delete k m a)
  | inr e' ↦ rw e' (b, All-dict_delete k m a)
]

log_to-IsSound :
    (m : Moment) (entry : OptimizationLog) (p : Plugin) → IsSound p → IsSound (log_to m entry p)
unfolding log_to
log_to-IsSound m entry p h = record {
  table = log_optimization_savings-IsTable m entry p.store h.table;
  waiting = h.waiting;
}

engage-IsSound :
    (c : ToolCall) (path : Option Text) (p : Plugin) → IsSound p → IsSound (engage c path p)
unfolding engage mark_path_engaged
engage-IsSound c none p h = h
engage-IsSound c (some path) p h = ground arith

apply_precall-IsSound :
    (m : Moment) (c : ToolCall) (output : BeforeOutput) (args : Dict Json) (r : PrecallResult)
    (p : Plugin)
    → IsEffect c.tool args r
    → IsSound p
    → IsSound (apply_precall m c output r p).1
unfolding apply_precall mark_precall_pending
apply_precall-IsSound m c output args r p e h = elim (Bool-cases r.blocked) [
  | inl b ↦ rw b (log_to-IsSound m _ p h)
  | inr b ↦ elim (Bool-cases r.modified) [
    | inl d ↦
        rw (b, d)
          (record {
            table = h.table;
            waiting =
                All-dict_set (key c.session_id c.call_id) _ p.pending ((e.modified_command d).2)
                  h.waiting;
          })
    | inr d ↦ rw (b, d) h
  ]
]

tool_precall_hook-IsSound :
    (host : Host) (cwd : Text) (m : Moment) (c : ToolCall) (output : BeforeOutput) (p : Plugin)
    → IsSound p
    → IsSound (tool_precall_hook host cwd m c output p).1
unfolding tool_precall_hook
tool_precall_hook-IsSound host cwd m c output p h =
    let path = path_arg output.args in
    let q = engage c (given path) p in
    let sound = engage-IsSound c (given path) p h in
    elim (Bool-cases (precall_skips c.tool)) [
      | inl e ↦ rw e sound
      | inr e ↦ rw e (
          apply_precall-IsSound m c output output.args _ q
            (optimize_tool_args-IsEffect host c.tool output.args (some cwd)
              (has_edit_intent c path q) true)
            sound)
    ]

take-IsSound :
    (session call : Text) (p : Plugin) → IsSound p → IsSound (take_precall_pending session call p).1
unfolding take_precall_pending
take-IsSound session call p h = elim (Option-cases (dict_get (key session call) p.pending)) [
  | inl e ↦ rw e h
  | inr (entry, e) ↦
      rw e (record {
        table = h.table;
        waiting = All-dict_delete (key session call) p.pending h.waiting;
      })
]

if-IsSound : (b : Bool) (q p : Plugin) → IsSound q → IsSound p → IsSound (if b then q else p)
if-IsSound true q p hq hp = hq
if-IsSound false q p hq hp = hp

log_pending-IsSound :
    (m : Moment) (c : ToolCall) (entry : Option PrecallPending) (p : Plugin)
    → IsSound p
    → IsSound (log_pending m c entry p)
unfolding log_pending
log_pending-IsSound m c none p h = h
log_pending-IsSound m c (some entry) p h =
    if-IsSound (ltb 0 entry.estimated_tokens_saved) _ p (log_to-IsSound m _ p h) h

tool_compress_hook-IsSound :
    (m n : Moment) (c : ToolCall) (output : Text) (p : Plugin)
    → IsSound p
    → IsSound (tool_compress_hook m n c output p).1
unfolding tool_compress_hook apply_compress
tool_compress_hook-IsSound m n c output p h =
    let (entry, q) = take_precall_pending c.session_id c.call_id p in
    let logged = log_pending-IsSound m c entry q (take-IsSound c.session_id c.call_id p h) in
    let r = compress_output_for_tool c.tool output in
    elim (Bool-cases (compress_skips c.tool || text_eq output [])) [
      | inl e ↦ rw e h
      | inr e ↦ elim (Bool-cases r.compressed) [
        | inl d ↦ rw (e, d) (log_to-IsSound n _ _ logged)
        | inr d ↦ rw (e, d) logged
      ]
    ]

log_pass-IsSound :
    (m : Moment) (source : Source) (name : Text) (session_id : Option Text) (counts : Counts)
    (p : Plugin)
    → IsSound p
    → IsSound (log_pass m source name session_id counts p)
unfolding log_pass
log_pass-IsSound m source name session_id counts p h =
    if-IsSound (ltb 0 counts.count && is_positive counts.tokens_saved) _ p (log_to-IsSound m _ p h)
      h

step-IsSound : {p q : Plugin} → Step p q → IsSound p → IsSound q
unfolding messages_transform_hook
step-IsSound (before {p} host cwd m c output) h = tool_precall_hook-IsSound host cwd m c output p h
step-IsSound (after {p} m n c output) h = tool_compress_hook-IsSound m n c output p h
step-IsSound (transform {p} m n messages) h =
    log_pass-IsSound n _ _ _ _ _ (log_pass-IsSound m _ _ _ _ p h)

-- In every state that a plugin reaches by calls of its three hooks, in any order and whatever the host,
-- the file system and the database do, from a table with unique ids and savings only: the table is of
-- this kind, where each saving is the difference of its counts and not 0, and every saving that waits
-- for its call is at least 200 tokens.
pub Reachable-IsSound : (p : Plugin) → Reachable p → IsSound p
Reachable-IsSound _ (start store t) = record { table = t; waiting = tt }
Reachable-IsSound q (next {p} r s) = step-IsSound s (Reachable-IsSound p r)
