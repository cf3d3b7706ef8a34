-- ===== src/Bm25/Tests.antt =====
-- A runtime of thousandths, and the tokens of a text (bm25.ts).
use ctxlite.Prelude.{
  ℕ, ◌+◌, ◌-◌, ◌*◌, ◌/◌, ◌≡◌, refl, [], ◌∷◌, map, All, str, text_eq, any, all, filter_by, ltb, leb,
  lower_unit, is_space,
}
use ctxlite.Runtime.{Runtime}
use ctxlite.Bm25.{
  split_camel, blank_separators, is_separator, separators, text_pieces, is_token, is_digits,
  is_stop_word, stop_words, prepare, tokenize,
}
use ctxlite.Bm25.Laws.{IsToken, tokenize-IsToken}
use ctxlite.Prelude.{print_nat}
use ctxlite.Prelude.{◌++◌}
use ctxlite.Prelude.{◌%◌}

-- Doubles as whole thousandths, cut off below; the logarithm is left out of the measure of a term.
abbrev pub thousandths : Runtime
thousandths = record {
  Double = ℕ;
  of_nat = λ n. 1000 * n;
  ratio = λ n d. 1000 * n / d;
  add = λ a b. a + b;
  sub = λ a b. a - b;
  mul = λ a b. a * b / 1000;
  div = λ a b. 1000 * a / b;
  round = λ a. (a + 500) / 1000 * 1000;
  print = λ a. print_nat (a / 1000) ++ (str "." ++ print_nat (a % 1000));
  natural_log = λ a. a;
  le = leb;
  lt = ltb;
  lower = λ t. map lower_unit t;
}

unfoldable pub tokens : Unit {0}
unfolding split_camel blank_separators is_separator separators text_pieces is_token is_digits
    is_stop_word stop_words prepare tokenize filter_by any all str text_eq lower_unit is_space
tokens = tt

some_tokens :
    tokenize thousandths (str "import { parseToken } from './x-42'")
    ≡ str "parse" ∷ str "token" ∷ []
unfolding tokens
some_tokens = refl

tokenize-IsToken_example : All IsToken (tokenize thousandths (str "const maxTokens = 4096;"))
tokenize-IsToken_example = tokenize-IsToken thousandths (str "const maxTokens = 4096;")
