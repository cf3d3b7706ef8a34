-- ===== src/Context/Cap.antt =====
-- `capStaleToolOutputs`: large outputs of older messages are compressed to a budget (context-prune.ts).
pub mod Totals
use ctxlite.Prelude.{
  ℕ, ◌+◌, ◌*◌, ◌≤◌, ◌<◌, ◌≡◌, refl, Bool, Option, none, some, List, [], ◌∷◌, ◌++◌, arith, Text, leb,
  if◌then◌else◌, sub_ℕ, pos,
}
use ctxlite.Tokens.{estimate_tokens}
use ctxlite.Compress.{CompressResult, default_options, compress_tool_output}
use ctxlite.Compress.Laws.{IsHonest, compress_tool_output-IsHonest}
use ctxlite.Context.Sweep.{
  ToolState, Part, Message, is_completed, output_of, write_output, Rewrite, Counts, zero_counts,
  sweep,
}
use ctxlite.Context.Sweep.Totals.{IsCounted, tokens_of_part, context_tokens, sweep-IsExact}

abbrev pub stale_output_max_tokens : ℕ
stale_output_max_tokens = 512

unfoldable pub cap_output : ℕ → Text → Option Rewrite
cap_output max_tokens output =
    let result =
      compress_tool_output output (record default_options { max_chars = some (max_tokens * 4) }) in
    if leb (estimate_tokens output) max_tokens
    then none
    else if result.compressed
    then some (record {
      output = result.output;
      tokens_in = result.tokens_in;
      tokens_out = result.tokens_out;
      tokens_saved = pos result.tokens_saved;
    })
    else none

abbrev on_output : (Text → Option Rewrite) → Option Text → Option Rewrite
on_output f none = none
on_output f (some output) = f output

unfoldable pub cap_part : ℕ → Part → Option Rewrite
cap_part max_tokens part =
    if is_completed part then on_output (cap_output max_tokens) (output_of part) else none

-- `messages` but the last
unfoldable pub older : List Message → List Message
older [] = []
older (m ∷ []) = []
older (m ∷ n ∷ ms) = m ∷ older (n ∷ ms)

unfoldable pub last_message : List Message → List Message
last_message [] = []
last_message (m ∷ []) = m ∷ []
last_message (m ∷ n ∷ ms) = last_message (n ∷ ms)

-- The loop runs over the indices below `messages.length - 1`.
unfoldable pub cap_stale_tool_outputs : List Message → ℕ → List Message × Counts
unfolding older last_message
cap_stale_tool_outputs ms max_tokens =
    let (capped, counts) = sweep (cap_part max_tokens) (older ms) zero_counts in
    (capped ++ last_message ms, counts)
