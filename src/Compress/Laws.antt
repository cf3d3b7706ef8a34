-- ===== src/Compress/Laws.antt =====
-- What a caller of the compressors can rely on (tool-output-compress.ts).
use ctxlite.Prelude.{
  ℕ, zero, suc, ◌+◌, ◌-◌, ◌≤◌, ◌<◌, ◌≡◌, true, false, [], ◌∷◌, arith, Text, length,
}
use ctxlite.Tokens.{estimate_tokens}
use ctxlite.Compress.{
  CompressOptions, CompressResult, unchanged, ansi_length, strip_from, strip_ansi, collapse_from,
  collapse_newlines, keep_if_smaller, compress_tool_output,
}

-- The contract of every compressor: the counts are the estimates of the two texts, what is said to
-- be saved is their difference, a compressed output is smaller, and an output that is not is the
-- text itself.
pub record IsHonest (text : Text) (r : CompressResult) : Type 0 where
  pub counted_in : r.tokens_in ≡ estimate_tokens text
  pub counted_out : r.tokens_out ≡ estimate_tokens r.output
  pub saved : r.tokens_saved + r.tokens_out ≡ r.tokens_in
  pub smaller : r.compressed ≡ true → r.tokens_out < r.tokens_in
  pub same : r.compressed ≡ false → r.output ≡ text

pub unchanged-IsHonest : (text : Text) → IsHonest text (unchanged text)
unfolding unchanged
unchanged-IsHonest text = ground arith

pub keep_if_smaller-IsHonest : (text output : Text) → IsHonest text (keep_if_smaller text output)
unfolding keep_if_smaller
keep_if_smaller-IsHonest text output = ground arith

-- Whatever the text and the options, the result of `compressToolOutput` is honest: its counts are
-- the estimates of the text and of the output, the saving is their difference, a compressed output has
-- fewer tokens than the text, and otherwise the output is the text.
pub compress_tool_output-IsHonest :
    (text : Text) (options : CompressOptions) → IsHonest text (compress_tool_output text options)
unfolding compress_tool_output
compress_tool_output-IsHonest text options = ground arith

-- Stripping escape sequences and collapsing blank lines never lengthens a text.
length-strip_from : (skip : ℕ) (s : Text) → length (strip_from skip s) ≤ length s
unfolding strip_from
length-strip_from skip [] = omega arith
length-strip_from (suc skip) (c ∷ s) = omega (arith, length-strip_from skip s)
length-strip_from zero (c ∷ s) =
    ground (arith, length-strip_from zero s, length-strip_from (ansi_length (c ∷ s) - 1) s)

length-collapse_from : (seen : ℕ) (s : Text) → length (collapse_from seen s) ≤ length s
unfolding collapse_from
length-collapse_from seen [] = omega arith
length-collapse_from seen (c ∷ s) = ground (
  arith,
  length-collapse_from seen s,
  length-collapse_from (seen + 1) s,
  length-collapse_from 0 s,
)

pub length-normalized : (text : Text) → length (collapse_newlines (strip_ansi text)) ≤ length text
unfolding collapse_newlines strip_ansi
length-normalized text =
    omega (arith, length-collapse_from 0 (strip_from zero text), length-strip_from zero text)
