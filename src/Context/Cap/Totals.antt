-- ===== src/Context/Cap/Totals.antt =====
-- About the report of `capStaleToolOutputs` (context-prune.ts).
use ctxlite.Prelude.{
  ℕ, ◌+◌, ◌-◌, ◌*◌, ◌≤◌, ◌<◌, ◌≡◌, refl, sym, ap, ◌∙◌, some, List, [], ◌∷◌, ◌++◌, arith, Text, pos,
  sub_ℕ,
}
use ctxlite.Tokens.{estimate_tokens}
use ctxlite.Compress.{default_options}
use ctxlite.Compress.Laws.{compress_tool_output-IsHonest}
use ctxlite.Context.Sweep.{Part, Message, output_of, write_output, Rewrite, zero_counts, sweep}
use ctxlite.Context.Sweep.Totals.{
  IsCounted, IsShrinking, tokens_of_part, context_tokens, context_tokens-append, sweep-IsExact,
  sweep-Shrinks,
}
use ctxlite.Context.Cap.{cap_output, cap_part, older, last_message, cap_stale_tool_outputs}
use ctxlite.Prelude.{length, length-map}
use ctxlite.Context.Sweep.Pointwise.{rewrite_message, sweep-eq-map}

-- What a capped output is, from the contract of the compressor.
cap_output-honest :
    (max_tokens : ℕ) (output : Text) (r : Rewrite)
    → cap_output max_tokens output ≡ some r
    → (r.tokens_in ≡ estimate_tokens output)
      × (r.tokens_out ≡ estimate_tokens r.output)
      × (r.tokens_out < r.tokens_in)
      × (r.tokens_saved ≡ pos (r.tokens_in - r.tokens_out))
unfolding cap_output
cap_output-honest max_tokens output r h =
    let honest =
      compress_tool_output-IsHonest output
        (record default_options { max_chars = some (max_tokens * 4) }) in
    ground (arith, honest.counted_in, honest.counted_out, honest.saved, honest.smaller)

cap_part_inv :
    (max_tokens : ℕ) (part : Part) (r : Rewrite)
    → cap_part max_tokens part ≡ some r
    → (output : Text) × (output_of part ≡ some output) × (cap_output max_tokens output ≡ some r)
unfolding cap_part
cap_part_inv max_tokens part r h = ground arith

tokens_of_part_lem :
    (part : Part) (output : Text)
    → output_of part ≡ some output
    → (tokens_of_part part ≡ estimate_tokens output)
      × ((text : Text) → tokens_of_part (write_output part text) ≡ estimate_tokens text)
unfolding tokens_of_part output_of write_output
tokens_of_part_lem part output h = (ground arith, λ text. ground arith)

cap_part-IsCounted : (max_tokens : ℕ) → IsCounted (cap_part max_tokens)
cap_part-IsCounted max_tokens part r h =
    let (output, has, capped) = cap_part_inv max_tokens part r h in
    let (hin, hout, less, saved) = cap_output-honest max_tokens output r capped in
    let (old, new) = tokens_of_part_lem part output has in
    (hin ∙ sym old, hout ∙ sym (new r.output), ground arith)

cap_part-IsShrinking : (max_tokens : ℕ) → IsShrinking (cap_part max_tokens)
cap_part-IsShrinking max_tokens part r h =
    let (output, has, capped) = cap_part_inv max_tokens part r h in
    (cap_output-honest max_tokens output r capped).2

older-append-last_message : (ms : List Message) → older ms ++ last_message ms ≡ ms
unfolding older last_message
older-append-last_message [] = refl
older-append-last_message (m ∷ []) = refl
older-append-last_message (m ∷ n ∷ ms) =
    ap (λ (ns : List Message). m ∷ ns) (older-append-last_message (n ∷ ms))

older-concat : (ms : List Message) (m : Message) → older (ms ++ m ∷ []) ≡ ms
unfolding older
older-concat [] m = refl
older-concat (n ∷ []) m = refl
older-concat (n ∷ k ∷ ms) m = ap (λ (ns : List Message). n ∷ ns) (older-concat (k ∷ ms) m)

last_message-concat : (ms : List Message) (m : Message) → last_message (ms ++ m ∷ []) ≡ m ∷ []
unfolding last_message
last_message-concat [] m = refl
last_message-concat (n ∷ []) m = refl
last_message-concat (n ∷ k ∷ ms) m = last_message-concat (k ∷ ms) m

-- A capping pass reports exactly what it changed: the tokens of all tool outputs after it and
-- `tokensIn` add up to those before it and `tokensOut`, `tokensSaved` is `tokensIn - tokensOut`, and each
-- capped output has saved at least one token, so that the context never grows.
pub cap_exact :
    (ms : List Message) (max_tokens : ℕ)
    → (context_tokens (cap_stale_tool_outputs ms max_tokens).0
          + (cap_stale_tool_outputs ms max_tokens).1.tokens_in
        ≡ context_tokens ms + (cap_stale_tool_outputs ms max_tokens).1.tokens_out)
      × ((cap_stale_tool_outputs ms max_tokens).1.tokens_saved
          ≡ sub_ℕ
              (cap_stale_tool_outputs ms max_tokens).1.tokens_in
              (cap_stale_tool_outputs ms max_tokens).1.tokens_out)
      × ((cap_stale_tool_outputs ms max_tokens).1.tokens_out
            + (cap_stale_tool_outputs ms max_tokens).1.count
          ≤ (cap_stale_tool_outputs ms max_tokens).1.tokens_in)
unfolding cap_stale_tool_outputs
cap_exact ms max_tokens =
    let e =
      sweep-IsExact (cap_part max_tokens) (cap_part-IsCounted max_tokens) (older ms) zero_counts in
    let (capped, counts) = sweep (cap_part max_tokens) (older ms) zero_counts in
    (
      omega (
        arith,
        e.exact,
        context_tokens-append capped (last_message ms),
        context_tokens-append (older ms) (last_message ms),
        ap context_tokens (older-append-last_message ms),
      ),
      e.saved refl,
      omega (
        arith,
        sweep-Shrinks (cap_part max_tokens) (cap_part-IsShrinking max_tokens) (older ms)
            zero_counts,
      ),
    )

-- The last message is left as it is: the pass over `ms` and a message `m` ends in `m`, behind as
-- many messages as `ms` has.
pub cap-last :
    (ms : List Message) (m : Message) (max_tokens : ℕ)
    → (ms' : List Message) × ((cap_stale_tool_outputs (ms ++ m ∷ []) max_tokens).0 ≡ ms' ++ m ∷ [])
      × (length ms' ≡ length ms)
unfolding cap_stale_tool_outputs
cap-last ms m max_tokens = (
  (sweep (cap_part max_tokens) ms zero_counts).0,
  rw (older-concat, last_message-concat),
  ap length (sweep-eq-map (cap_part max_tokens) ms zero_counts)
      ∙ length-map ms (rewrite_message (cap_part max_tokens)),
)
