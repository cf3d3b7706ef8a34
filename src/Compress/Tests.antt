-- ===== src/Compress/Tests.antt =====
-- Runs of the compressor of tool outputs (tool-output-compress.ts).
use ctxlite.Prelude.{
  ℕ, zero, suc, ◌≡◌, refl, true, false, some, [], ◌∷◌, ◌++◌, Text, str, length, lines_of,
}
use ctxlite.Tokens.{estimate_tokens}
use ctxlite.Compress.{
  CompressOptions, default_options, compress_tool_output, strip_ansi, collapse_newlines,
  elide_chars, elide_lines,
}
use ctxlite.Compress.Laws.{IsHonest, compress_tool_output-IsHonest}
use ctxlite.Prelude.{unlines, print_nat, print_sub}

abbrev repeat : ℕ → Text → Text
repeat zero t = []
repeat (suc n) t = t ++ repeat n t

-- one line of 400 units, and 130 lines
abbrev long_line : Text
long_line = repeat 100 (b'a' ∷ b'b' ∷ b'c' ∷ b'd' ∷ [])

abbrev many_lines : Text
many_lines = repeat 130 (b'a' ∷ b'b' ∷ b'c' ∷ b'd' ∷ b'e' ∷ b'f' ∷ b'g' ∷ 10 ∷ [])

abbrev small_cap : CompressOptions
small_cap = record default_options { max_chars = some 240 }

compress : Unit {0}
unfolding compress_tool_output strip_ansi collapse_newlines elide_chars elide_lines estimate_tokens
    str lines_of unlines print_nat print_sub
compress = tt

escapes_and_blank_lines :
    (strip_ansi (27 ∷ str "[1;31mred" ++ 27 ∷ str "[0m") ≡ str "red")
    × (strip_ansi (27 ∷ str "[xmred") ≡ 27 ∷ str "[xmred")
    × (collapse_newlines (97 ∷ 10 ∷ 10 ∷ 10 ∷ 10 ∷ 10 ∷ 98 ∷ 10 ∷ [])
        ≡ 97 ∷ 10 ∷ 10 ∷ 10 ∷ 98 ∷ 10 ∷ [])
unfolding compress
escapes_and_blank_lines = (refl, refl, refl)

short_is_kept : (compress_tool_output (str "hello") default_options).compressed ≡ false
unfolding compress
short_is_kept = refl

long_line_is_cut : (compress_tool_output long_line small_cap).compressed ≡ true
unfolding compress
long_line_is_cut = refl

-- 131 lines keep 120 of them, whatever the cap: 960 units and the note are more than 240.
cap_is_passed : length (compress_tool_output many_lines small_cap).output ≡ 1003
unfolding compress
cap_is_passed = refl

compress_tool_output-IsHonest_example :
    IsHonest long_line (compress_tool_output long_line small_cap)
compress_tool_output-IsHonest_example = compress_tool_output-IsHonest long_line small_cap
