-- ===== src/Opencode/Display/Titles/InLine.antt =====
-- The suffix of a title is on one line (session-display.ts).
use ctxlite.Opencode.Display.Titles.Stripped.{on_one_line, true_and, both_true}
use ctxlite.Prelude.{ℕ, suc, ◌≡◌, refl, true, not, [], ◌∷◌, ◌++◌, arith, Text, str, all, if-either}
use ctxlite.Opencode.Display.{title_mark, breaks_line}
use ctxlite.Prelude.{All}
use ctxlite.Opencode.Display.{format_token_count}
use ctxlite.Prelude.{print_nat}
use ctxlite.Prelude.{print_nat-All}
use ctxlite.Report.{repeat_unit, to_fixed, pad_start, format_token_count}
use ctxlite.Prelude.{zero, BinaryFraction, All-append, leb}

abbrev pub IsInLine : ℕ → Type 0
IsInLine c = not (breaks_line c) ≡ true

pub on_one_line-All : (s : Text) → All IsInLine s → on_one_line s ≡ true
unfolding all
on_one_line-All [] h = refl
on_one_line-All (c ∷ s) (p, h) =
    true_and (not (breaks_line c)) (on_one_line s) p (on_one_line-All s h)

pub digits-InLine : (n : ℕ) → All IsInLine (print_nat n)
unfolding breaks_line
digits-InLine n = print_nat-All IsInLine (λ d h. ground (arith, h)) n

pub zeros-InLine : (n : ℕ) → All IsInLine (repeat_unit b'0' n)
unfolding breaks_line
zeros-InLine zero = tt
zeros-InLine (suc n) = (refl, zeros-InLine n)

pub to_fixed-InLine : (digits : ℕ) (x : BinaryFraction) → All IsInLine (to_fixed digits x)
unfolding to_fixed pad_start str breaks_line
to_fixed-InLine digits x =
    All-append IsInLine (print_nat _) _ (digits-InLine _)
      (refl, All-append IsInLine (repeat_unit b'0' _) _ (zeros-InLine _) (digits-InLine _))

pub format_token_count-InLine : (n : ℕ) → All IsInLine (format_token_count n)
unfolding format_token_count str breaks_line
format_token_count-InLine n =
    if-either (All IsInLine) (leb 1000000 n) _ _
      (λ e. All-append IsInLine (to_fixed 1 _) _ (to_fixed-InLine 1 _) (refl, tt))
      (λ e.
        if-either (All IsInLine) (leb 1000 n) _ _
          (λ f. All-append IsInLine (to_fixed 1 _) _ (to_fixed-InLine 1 _) (refl, tt))
          (λ f. digits-InLine n))

pub on_one_line-join :
    (s t : Text) → on_one_line s ≡ true → on_one_line t ≡ true → on_one_line (s ++ t) ≡ true
unfolding all
on_one_line-join [] t h k = k
on_one_line-join (c ∷ s) t h k =
    let (first, rest) = both_true (not (breaks_line c)) (on_one_line s) h in
    true_and (not (breaks_line c)) (on_one_line (s ++ t)) first (on_one_line-join s t rest k)

pub on_one_line-suffix :
    (n : ℕ) → on_one_line (title_mark ++ (format_token_count n ++ str " saved")) ≡ true
unfolding title_mark str breaks_line all
on_one_line-suffix n = on_one_line-join title_mark (format_token_count n ++ str " saved") refl (
    on_one_line-join (format_token_count n) (str " saved")
      (on_one_line-All (format_token_count n) (format_token_count-InLine n)) refl)
