-- ===== src/Context/Prune/Totals.antt =====
-- About the report of `pruneMessageContext` (context-prune.ts).
use ctxlite.Prelude.{◌+◌, ◌≡◌, refl, List, [], arith, Text, Dict, sub_ℕ}
use ctxlite.Context.Sweep.{Message, output_of, write_output, zero_counts}
use ctxlite.Context.Sweep.Totals.{IsCounted, tokens_of_part, context_tokens, sweep-IsExact}
use ctxlite.Context.Prune.{prune_part, latest_by_key, prune_message_context}

prune_part-IsCounted : (latest : Dict Text) → IsCounted (prune_part latest)
unfolding prune_part tokens_of_part write_output output_of
prune_part-IsCounted latest part r h = ground arith

-- The counts of a pruning pass are exact: the tokens of all tool outputs after it and `tokensIn` add
-- up to those before it and `tokensOut`, and `tokensSaved` is `tokensIn - tokensOut` as an integer, which may
-- be negative.
pub prune_exact :
    (ms : List Message)
    → (context_tokens (prune_message_context ms).0 + (prune_message_context ms).1.tokens_in
        ≡ context_tokens ms + (prune_message_context ms).1.tokens_out)
      × ((prune_message_context ms).1.tokens_saved
          ≡ sub_ℕ (prune_message_context ms).1.tokens_in (prune_message_context ms).1.tokens_out)
unfolding prune_message_context
prune_exact ms =
    let e =
      sweep-IsExact (prune_part (latest_by_key [] ms)) (prune_part-IsCounted (latest_by_key [] ms))
        ms zero_counts in
    (omega (arith, e.exact), e.saved refl)
