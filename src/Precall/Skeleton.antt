-- ===== src/Precall/Skeleton.antt =====
-- `stripEmbeddedText`: quoted strings and heredocs become spaces, unit for unit (tool-precall.ts).
use ctxlite.Prelude.{ℕ, ◌≡◌, ◌∙◌, true, not, ◌||◌, Text, str, ◌==◌, length, is_space}
use ctxlite.Regex.{
  Matcher, unit, ◌⨟◌, either, optional, many, some_of, lazy_many, literal, is_word, dot,
  word_boundary, capture, blank_matches,
}
use ctxlite.Regex.Blank.{length-blank_matches}

-- `/<<-?\s*(['"]?)(\w+)\1[\s\S]*?\n\s*\2\b/`
heredoc : Matcher
heredoc =
    literal (str "<<")
    ⨟ optional (literal (str "-"))
    ⨟ many (unit is_space)
    ⨟ capture (optional (unit (λ c. c == 34 || c == 39))) (λ quote.
      capture (some_of (unit is_word)) (λ word.
        literal quote
        ⨟ lazy_many (unit (λ c. true))
        ⨟ unit (λ c. c == 10)
        ⨟ many (unit is_space)
        ⨟ literal word
        ⨟ word_boundary))

-- `/"(?:[^"\\]|\\.)*"/`, and the same with the other quotation mark
quoted : ℕ → Matcher
quoted q =
    unit (λ c. c == q)
    ⨟ many (either (unit (λ c. not (c == q || c == 92))) (unit (λ c. c == 92) ⨟ dot))
    ⨟ unit (λ c. c == q)

unfoldable pub strip_embedded_text : Text → Text
unfolding heredoc quoted
strip_embedded_text command =
    blank_matches (quoted 39) (blank_matches (quoted 34) (blank_matches heredoc command))

-- Every unit of the skeleton stands at the place of the command's unit.
pub length-strip_embedded_text :
    (command : Text) → length (strip_embedded_text command) ≡ length command
length-strip_embedded_text command =
    unfold strip_embedded_text in
    length-blank_matches (quoted 39) (blank_matches (quoted 34) (blank_matches heredoc command))
    ∙ length-blank_matches (quoted 34) (blank_matches heredoc command)
    ∙ length-blank_matches heredoc command
