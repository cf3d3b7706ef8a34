-- ===== src/Context/Prune.antt =====
-- `pruneMessageContext`: a completed call that a later one repeats loses its output
-- (context-prune.ts).
pub mod Latest
pub mod Totals
pub mod Names
use ctxlite.Prelude.{
  ℕ, ◌-◌, ◌≡◌, Bool, true, false, ◌&&◌, ◌||◌, not, Option, none, some, List, [], ◌∷◌, ◌++◌, Text,
  str, text_eq, ltb, if◌then◌else◌, or_else, Dict, dict_get, dict_set, print_nat, sub_ℕ,
}
use ctxlite.Tokens.{estimate_tokens}
use ctxlite.Context.ArgsKey.{tool_key}
use ctxlite.Context.Sweep.{
  Part, Message, is_completed, input_of, output_of, Rewrite, Counts, zero_counts, sweep,
}

-- `part.tool ?? "unknown"`
unfoldable pub tool_of : Part → Text
tool_of part = or_else part.tool (str "unknown")

unfoldable pub key_of : Part → Text
unfolding tool_of
key_of part = tool_key (tool_of part) (input_of part)

-- The first loop: the id of the last completed call of each key.
abbrev pub note_part : Dict Text → Part → Dict Text
note_part latest part =
    if is_completed part then dict_set (key_of part) (or_else part.call_id []) latest else latest

unfoldable pub note_latest : Dict Text → List Part → Dict Text
note_latest latest [] = latest
note_latest latest (part ∷ parts) = note_latest (note_part latest part) parts

unfoldable pub latest_by_key : Dict Text → List Message → Dict Text
unfolding note_latest
latest_by_key latest [] = latest
latest_by_key latest (m ∷ ms) = latest_by_key (note_latest latest m.parts) ms

unfoldable pub placeholder : Text → ℕ → Text → Text
placeholder tool original_tokens latest_call_id =
    str "[ctxlite] Duplicate "
    ++ (tool
        ++ (str " output pruned ("
            ++ (print_nat original_tokens
                ++ (str " tokens). See call " ++ (latest_call_id ++ str ".")))))

abbrev same_call : Option Text → Text → Bool
same_call none id = false
same_call (some own) id = text_eq own id

-- `!latestCallId || part.callID === latestCallId` ends the round
unfoldable pub is_superseded : Option Text → Text → Bool
is_superseded own [] = false
is_superseded own (c ∷ id) = not (same_call own (c ∷ id))

-- The body of the second loop for an output that is not empty.
prune_output : Part → Text → Text → Option Rewrite
prune_output part latest_call_id original =
    let text = placeholder (tool_of part) (estimate_tokens original) latest_call_id in
    if is_superseded part.call_id latest_call_id && not (ltb (estimate_tokens original) 48)
    then some (record {
      output = text;
      tokens_in = estimate_tokens original;
      tokens_out = estimate_tokens text;
      tokens_saved = sub_ℕ (estimate_tokens original) (estimate_tokens text);
    })
    else none

abbrev on_output : (Text → Option Rewrite) → Option Text → Option Rewrite
on_output f none = none
on_output f (some original) = f original

unfoldable pub prune_part : Dict Text → Part → Option Rewrite
unfolding prune_output
prune_part latest part =
    if is_completed part
    then on_output (prune_output part (or_else (dict_get (key_of part) latest) [])) (output_of part)
    else none

unfoldable pub prune_message_context : List Message → List Message × Counts
prune_message_context ms = sweep (prune_part (latest_by_key [] ms)) ms zero_counts
