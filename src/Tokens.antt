-- ===== src/Tokens.antt =====
-- packages/core/src/tokens.ts: the token estimate and the amounts derived from it.
use ctxlite.Prelude.{
  ℕ, ◌||◌, ◌+◌, ◌*◌, ◌/◌, ◌≤◌, arith, Text, str, text_eq, length, if◌then◌else◌, ◌==◌,
}

-- `Math.ceil(text.length / 4)`
unfoldable pub estimate_tokens : Text → ℕ
estimate_tokens text = (length text + 3) / 4

-- `Math.round(generative * 0.15)`: the product of a double and 0.15 is rounded to the nearest
-- double, which is the exact half wherever 15 * generative / 100 is one, so that the rounding is that
-- of the rational number.
unfoldable pub estimate_conciseness_savings : ℕ → ℕ → ℕ
estimate_conciseness_savings output_tokens reasoning_tokens =
    let generative = output_tokens + reasoning_tokens in
    if generative == 0 then 0 else (15 * generative + 50) / 100

-- The price table, in cents for a million tokens.
unfoldable pub price_per_million : Text → ℕ
price_per_million upstream =
    if text_eq upstream (str "api.openai.com") || text_eq upstream (str "openai")
    then 250
    else if text_eq upstream (str "api.githubcopilot.com")
        || text_eq upstream (str "api2.cursor.sh")
    then 0
    else if text_eq upstream (str "google")
    then 125
    else if text_eq upstream (str "groq")
    then 50
    else 300

-- `(tokensSaved / 1_000_000) * price`, in units of a millionth of a cent: exact, where the program
-- rounds to a double.
unfoldable pub estimate_cost : ℕ → Text → ℕ
unfolding price_per_million
estimate_cost tokens_saved upstream = tokens_saved * price_per_million upstream

pub estimate_tokens_mono :
    (s t : Text) → length s ≤ length t → estimate_tokens s ≤ estimate_tokens t
unfolding estimate_tokens
estimate_tokens_mono s t h = omega arith
