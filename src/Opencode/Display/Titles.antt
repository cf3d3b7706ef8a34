-- ===== src/Opencode/Display/Titles.antt =====
-- About the titles of sessions (session-display.ts).
pub mod Stripped
pub mod InLine
use ctxlite.Opencode.Display.Titles.Stripped.{
  cut_mark, strip-append, strip-same, strip-NoSuffix, true_and,
}
use ctxlite.Opencode.Display.Titles.InLine.{on_one_line-suffix}
use ctxlite.Prelude.{
  ℕ, suc, ◌≡◌, ◌≢◌, refl, ap, ◌⊎◌, inl, inr, Bool, true, false, ◌&&◌, not, [], ◌∷◌, ◌++◌, arith,
  Text, str, text_eq, text_eq_iff, starts_with, all, ◌==◌, if◌then◌else◌, if-either, Bool-cases,
}
use ctxlite.Opencode.Display.{
  title_mark, breaks_line, is_title_suffix, strip_ctxlite_title_suffix, title_suffix,
  build_open_code_session_title,
}
use ctxlite.Prelude.{All}
use ctxlite.Opencode.Display.{format_token_count}
use ctxlite.Prelude.{print_nat}
use ctxlite.Prelude.{print_nat-All}
use ctxlite.Report.{repeat_unit, to_fixed, pad_start, format_token_count}
use ctxlite.Prelude.{zero, BinaryFraction, All-append, leb}
use ctxlite.Prelude.{ends_with}
use mathlib.Core.List.{reverse, reverse-append}

starts_with-append : (p s : Text) → starts_with (p ++ s) p ≡ true
unfolding starts_with
starts_with-append [] s = refl
starts_with-append (c ∷ p) s =
    true_and (c == c) (starts_with (p ++ s) p) (ground arith) (starts_with-append p s)

ends_with-append : (before t : Text) → ends_with (before ++ t) t ≡ true
unfolding ends_with
ends_with-append before t = rw reverse-append (starts_with-append (reverse t) (reverse before))

not_ended : (before : Text) → ends_with (before ++ cut_mark) cut_mark ≡ false → ⊥
not_ended before h = cc (ends_with-append before cut_mark, h)

-- A title that is built from a built title, for any other savings, is the one that is built from
-- the base title: the suffix is replaced and never doubled, unless the base title, stripped of a
-- suffix, ends in ` · ctxlite:`.
pub build_open_code_session_title-again :
    (base_title : Text) (n m : ℕ)
    → ends_with (strip_ctxlite_title_suffix base_title) cut_mark ≡ false
    → build_open_code_session_title (build_open_code_session_title base_title n) m
      ≡ build_open_code_session_title base_title m
unfolding build_open_code_session_title title_suffix
build_open_code_session_title-again base_title n m apart =
    let base = strip_ctxlite_title_suffix base_title in
    let kept : strip_ctxlite_title_suffix (if n == 0 then base else base ++ title_suffix n) ≡ base =
      if-either (λ t. strip_ctxlite_title_suffix t ≡ base) (n == 0) _ _
        (λ e. strip-same base (strip-NoSuffix base_title))
        (λ e.
          strip-append base (format_token_count n ++ str " saved") (strip-NoSuffix base_title)
            (λ before e. not_ended before (rw e at apart)) (on_one_line-suffix n)) in
    ap (λ (b : Text). if m == 0 then b else b ++ title_suffix m) kept
