-- ===== src/Context/Tests.antt =====
-- Runs of the passes over a context (context-prune.ts).
use mathlib.Core.List.{Memᴰ}
use ctxlite.Prelude.{
  ℕ, zero, suc, ◌+◌, ◌≤◌, ◌≡◌, ◌≢◌, refl, true, false, some, none, List, [], ◌∷◌, ◌++◌, Text, str,
  text_eq, length, dict_get, dict_set, or_else, sub_ℕ, pos,
}
use ctxlite.Tokens.{estimate_tokens}
use ctxlite.Json.{Fields, field, end, num, string, obj}
use ctxlite.Json.Stringify.{stringify}
use ctxlite.Context.ArgsKey.{tool_key, stable_args_key}
use ctxlite.Context.ArgsKey.Order.{exchange, tool_key-Reordered}
use ctxlite.Context.Sweep.{
  Part, Message, is_completed, output_of, input_of, write_output, Rewrite, sweep,
}
use ctxlite.Context.Sweep.Totals.{context_tokens}
use ctxlite.Context.Sweep.Pointwise.{around}
use ctxlite.Context.Prune.{
  key_of, tool_of, latest_by_key, placeholder, prune_part, prune_message_context,
}
use ctxlite.Context.Prune.Totals.{prune_exact}
use ctxlite.Context.Prune.Latest.{prune-latest}
use ctxlite.Context.Prune.Names.{all_parts, prune_names_kept}
use ctxlite.Context.Cap.{cap_stale_tool_outputs}
use ctxlite.Context.Cap.Totals.{cap_exact}
use ctxlite.Prelude.{filter_by, all, print_nat}
use ctxlite.Context.Prune.{is_superseded}
use ctxlite.Context.ArgsKey.{text_lt}
use ctxlite.Context.Sweep.{add_rewrite}

abbrev repeat : ℕ → Text → Text
repeat zero t = []
repeat (suc n) t = t ++ repeat n t

abbrev listing : Text
listing = repeat 60 (b'a' ∷ b'b' ∷ b'c' ∷ b'd' ∷ [])

abbrev two_args : Fields
two_args = field (str "path") (string (str "src")) (field (str "depth") (num (str "2")) end)

abbrev swapped_args : Fields
swapped_args = field (str "depth") (num (str "2")) (field (str "path") (string (str "src")) end)

abbrev call : Text → Fields → Part
call id args = record {
  kind = str "tool";
  call_id = some id;
  tool = some (str "list");
  state =
      some (record { status = str "completed"; input = some (obj args); output = some listing });
}

abbrev first_call : Part
first_call = call (str "c1") two_args

abbrev second_call : Part
second_call = call (str "c2") swapped_args

abbrev history : List Message
history = record { parts = first_call ∷ [] } ∷ record { parts = second_call ∷ [] } ∷ []

prune : Unit {0}
unfolding prune_message_context prune_part latest_by_key key_of tool_key stable_args_key stringify
    is_completed output_of input_of text_eq str dict_get dict_set sweep placeholder estimate_tokens
    tool_of write_output is_superseded text_lt add_rewrite filter_by all print_nat
prune = tt

args_in_any_order :
    tool_key (str "list") (some (obj two_args)) ≡ str "list:{\"depth\":2,\"path\":\"src\"}"
unfolding prune
args_in_any_order = refl

abbrev pruned_first : Rewrite
pruned_first = record {
  output = placeholder (str "list") 60 (str "c2");
  tokens_in = 60;
  tokens_out = 16;
  tokens_saved = pos 44;
}

first_is_pruned : prune_part (latest_by_key [] history) first_call ≡ some pruned_first
unfolding prune
first_is_pruned = refl

one_is_pruned : (prune_message_context history).1.count ≡ 1
unfolding prune
one_is_pruned = refl

different_keys : text_eq (str "path") (str "depth") ≡ false
unfolding prune
different_keys = refl

second_is_completed : is_completed second_call ≡ true
unfolding prune
second_is_completed = refl

tool_key-Reordered_example :
    tool_key (str "list") (some (obj two_args)) ≡ tool_key (str "list") (some (obj swapped_args))
tool_key-Reordered_example =
    tool_key-Reordered (str "list") two_args swapped_args
      (exchange (str "path", string (str "src")) (str "depth", num (str "2")) [] different_keys)

prune_exact_example :
    (context_tokens (prune_message_context history).0 + (prune_message_context history).1.tokens_in
      ≡ context_tokens history + (prune_message_context history).1.tokens_out)
    × ((prune_message_context history).1.tokens_saved
        ≡ sub_ℕ
            (prune_message_context history).1.tokens_in
            (prune_message_context history).1.tokens_out)
prune_exact_example = prune_exact history

prune-latest_example :
    (ms' : List Message) × (ps' : List Part) × (qs' : List Part) × (ns' : List Message)
    × ((prune_message_context history).0 ≡ around ms' ps' second_call qs' ns')
    × (length ms' ≡ 1)
    × (length ps' ≡ 0)
prune-latest_example =
    prune-latest (record { parts = first_call ∷ [] } ∷ []) [] second_call [] [] second_is_completed
      tt tt

prune_names_kept_example :
    (q : Part) × (original : Text) × Memᴰ q (all_parts history)
    × (is_completed q ≡ true)
    × (key_of q ≡ key_of first_call)
    × (q.call_id ≢ some (str "c1"))
    × (prune_part (latest_by_key [] history) q ≡ none)
    × (output_of first_call ≡ some original)
    × (pruned_first.output
        ≡ placeholder (tool_of first_call) (estimate_tokens original) (or_else q.call_id []))
prune_names_kept_example = prune_names_kept history first_call pruned_first first_is_pruned

cap_exact_example :
    (context_tokens (cap_stale_tool_outputs history 20).0
        + (cap_stale_tool_outputs history 20).1.tokens_in
      ≡ context_tokens history + (cap_stale_tool_outputs history 20).1.tokens_out)
    × ((cap_stale_tool_outputs history 20).1.tokens_saved
        ≡ sub_ℕ
            (cap_stale_tool_outputs history 20).1.tokens_in
            (cap_stale_tool_outputs history 20).1.tokens_out)
    × ((cap_stale_tool_outputs history 20).1.tokens_out
          + (cap_stale_tool_outputs history 20).1.count
        ≤ (cap_stale_tool_outputs history 20).1.tokens_in)
cap_exact_example = cap_exact history 20
