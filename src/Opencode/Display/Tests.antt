-- ===== src/Opencode/Display/Tests.antt =====
-- Runs of the titles of sessions (session-display.ts).
use ctxlite.Prelude.{
  ◌≡◌, refl, false, str, all, print_nat, starts_with, ends_with, times, quotient, half_even,
  quotient_exponent, round_to_double, bits_from, scaled,
}
use ctxlite.Report.{pad_start, to_fixed, format_token_count, support_line}
use ctxlite.Opencode.Display.{
  title_mark, breaks_line, is_title_suffix, strip_ctxlite_title_suffix, title_suffix,
  build_open_code_session_title, split_support,
}
use ctxlite.Opencode.Display.Titles.Stripped.{cut_mark}
use ctxlite.Opencode.Display.Titles.{build_open_code_session_title-again}

run : Unit {0}
unfolding str all print_nat starts_with ends_with times quotient half_even quotient_exponent
    round_to_double bits_from scaled pad_start to_fixed format_token_count support_line title_mark
    breaks_line is_title_suffix strip_ctxlite_title_suffix title_suffix
    build_open_code_session_title split_support cut_mark
run = tt

some_title :
    build_open_code_session_title (str "Fix · ctxlite: 5 saved") 1500
    ≡ str "Fix · ctxlite: 1.5K saved"
unfolding run
some_title = refl

-- A title that ends in the mark without its blank loses it.
lost_mark :
    build_open_code_session_title (build_open_code_session_title (str "On · ctxlite:") 5) 5
    ≡ str "On · ctxlite: 5 saved"
unfolding run
lost_mark = refl

not_cut : ends_with (strip_ctxlite_title_suffix (str "Fix the parser")) cut_mark ≡ false
unfolding run
not_cut = refl

build_open_code_session_title-again_example :
    build_open_code_session_title (build_open_code_session_title (str "Fix the parser") 900) 1500
    ≡ build_open_code_session_title (str "Fix the parser") 1500
build_open_code_session_title-again_example =
    build_open_code_session_title-again (str "Fix the parser") 900 1500 not_cut
