-- ===== src/Compress/Bounds.antt =====
-- How long an output of `compressToolOutput` is (tool-output-compress.ts).
use ctxlite.Prelude.{
  ℕ, ◌+◌, ◌-◌, ◌*◌, ◌/◌, ◌^◌, ◌≤◌, ◌<◌, ◌≡◌, true, [], ◌∷◌, ◌++◌, arith, Text, str, length, take,
  or_else, length-take, length-drop, length-append, length-unlines-append, length-unlines-one,
  length-print_nat, print_nat, unlines, lines_of,
}
use ctxlite.Compress.{
  CompressOptions, strip_ansi, collapse_newlines, elide_chars, tail_chars, compress_tool_output,
}
use ctxlite.Compress.Laws.{length-normalized}

length-chars_note :
    (n : Text) → length (str "[ctxlite] … " ++ (n ++ str " chars omitted …")) ≡ length n + 28
unfolding str
length-chars_note n = omega (arith, length-append n (str " chars omitted …"))

length-tail_chars : (m h : ℕ) (s : Text) → h + 80 < m → length (tail_chars m h s) ≤ m - (h + 80)
unfolding tail_chars
length-tail_chars m h s k = ground (arith, length-drop (length s - (m - (h + 80))) s)

length-unlines_five :
    (a b c : Text)
    → length (unlines (a ∷ [] ∷ b ∷ [] ∷ c ∷ [])) ≡ length a + length b + length c + 4
length-unlines_five a b c = omega (
  arith,
  length-unlines-append a [] (b ∷ [] ∷ c ∷ []),
  length-unlines-append [] b ([] ∷ c ∷ []),
  length-unlines-append b [] (c ∷ []),
  length-unlines-append [] c [],
  length-unlines-one c,
)

pub length-elide_chars :
    (m : ℕ) (s : Text) → 230 ≤ m → length s < 2 ^ 53 → length (elide_chars m s) ≤ m
unfolding elide_chars
length-elide_chars m s big short =
    let note = print_nat (length s + 80 - m) in
    let head = 65 * m / 100 in
    omega (
      arith,
      length-unlines_five (take head s) (str "[ctxlite] … " ++ (note ++ str " chars omitted …"))
          (tail_chars m head s),
      length-chars_note note,
      length-print_nat 47 (length s + 80 - m) (omega arith),
      length-take head s,
      length-tail_chars m head s (omega arith),
    )

-- A text that, once escape sequences are stripped and blank lines collapsed, has no more lines than
-- `headLines + tailLines + 5` keeps the cap: for a cap of at least 230 characters, and a text of
-- less than 2^53 units, a compressed output has at most `maxChars` characters.
pub length-compress_tool_output :
    (text : Text) (options : CompressOptions)
    → length (lines_of (collapse_newlines (strip_ansi text)))
      ≤ or_else options.head_lines 80 + or_else options.tail_lines 40 + 5
    → 230 ≤ or_else options.max_chars 12000
    → length text < 2 ^ 53
    → (compress_tool_output text options).compressed ≡ true
    → length (compress_tool_output text options).output ≤ or_else options.max_chars 12000
unfolding compress_tool_output
length-compress_tool_output text options few big short h = ground (
  arith,
  length-elide_chars (or_else options.max_chars 12000) (collapse_newlines (strip_ansi text)),
  length-normalized text,
)
