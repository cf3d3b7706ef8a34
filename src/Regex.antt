-- ===== src/Regex.antt =====
-- Regular expressions of the source as backtracking matchers, with the order of ECMAScript: a
-- greedy repetition tries one more round first, a lazy one tries to stop first.
pub mod Blank
use ctxlite.Prelude.{
  ℕ, zero, suc, ◌-◌, Bool, true, false, ◌&&◌, ◌||◌, not, Option, none, some, List, [], ◌∷◌, ◌++◌,
  Text, str, length, take, ltb, leb, ◌==◌, if◌then◌else◌, is_space, lower_unit,
}

-- A place in a text: the unit before it, and the rest.
pub record Cursor : Type 0 where
  pub before : Option ℕ
  pub rest : Text

abbrev pub Matcher : Type 0
Matcher = Cursor → (Cursor → Option Cursor) → Option Cursor

abbrev step : (ℕ → Bool) → Text → (Cursor → Option Cursor) → Option Cursor
step p [] k = none
step p (x ∷ s) k = elim (p x) [ true ↦ k (record { before = some x; rest = s }) | false ↦ none ]

-- a class of units
unfoldable pub unit : (ℕ → Bool) → Matcher
unit p c k = step p c.rest k

-- sequence, alternative, `m?`
infixr 40 ◌⨟◌
unfoldable pub ◌⨟◌ : Matcher → Matcher → Matcher
◌⨟◌ m n c k = m c (λ c'. n c' k)

unfoldable pub either : Matcher → Matcher → Matcher
either m n c k = elim (m c k) [ some e ↦ some e | none ↦ n c k ]

unfoldable pub optional : Matcher → Matcher
optional m c k = elim (m c k) [ some e ↦ some e | none ↦ k c ]

-- `m*` and `m*?`; a round that consumes nothing ends the repetition, so that the length of the rest
-- bounds the number of rounds
many_from : ℕ → Matcher → Matcher
many_from zero m c k = k c
many_from (suc n) m c k =
    elim (m c (λ c'. elim (ltb (length c'.rest) (length c.rest)) [
      | true ↦ many_from n m c' k
      | false ↦ none
    ])) [ some e ↦ some e | none ↦ k c ]

unfoldable pub many : Matcher → Matcher
unfolding many_from
many m c k = many_from (length c.rest) m c k

unfoldable pub some_of : Matcher → Matcher
unfolding many
some_of m c k = m c (λ c'. many m c' k)

lazy_from : ℕ → Matcher → Matcher
lazy_from zero m c k = k c
lazy_from (suc n) m c k = elim (k c) [
  | some e ↦ some e
  | none ↦ m c (λ c'. elim (ltb (length c'.rest) (length c.rest)) [
    | true ↦ lazy_from n m c' k
    | false ↦ none
  ])
]

unfoldable pub lazy_many : Matcher → Matcher
unfolding lazy_from
lazy_many m c k = lazy_from (length c.rest) m c k

-- a literal, and one under the flag `i`
unfoldable pub literal : Text → Matcher
unfolding unit
literal [] c k = k c
literal (x ∷ t) c k = unit (λ y. y == x) c (λ c'. literal t c' k)

unfoldable pub literal_i : Text → Matcher
unfolding unit
literal_i [] c k = k c
literal_i (x ∷ t) c k = unit (λ y. lower_unit y == x) c (λ c'. literal_i t c' k)

-- `\w`, `\d`, `.`
unfoldable pub is_word : ℕ → Bool
is_word c =
    leb b'a' c && leb c b'z' || leb b'A' c && leb c b'Z' || leb b'0' c && leb c b'9' || c == b'_'

unfoldable pub is_decimal : ℕ → Bool
is_decimal c = leb b'0' c && leb c b'9'

unfoldable pub is_line_end : ℕ → Bool
is_line_end c = c == 10 || c == 13 || c == 8232 || c == 8233

unfoldable pub dot : Matcher
unfolding unit is_line_end
dot = unit (λ c. not (is_line_end c))

abbrev word_at : Option ℕ → Bool
word_at none = false
word_at (some c) = is_word c

abbrev next_of : Text → Option ℕ
next_of [] = none
next_of (x ∷ s) = some x

abbrev differ : Bool → Bool → Bool
differ true b = not b
differ false b = b

-- `\b`
unfoldable pub word_boundary : Matcher
unfolding is_word
word_boundary c k = elim (differ (word_at c.before) (word_at (next_of c.rest))) [
  | true ↦ k c
  | false ↦ none
]

-- `^` and `$`, without the flag `m`
abbrev is_none : Option ℕ → Bool
is_none none = true
is_none (some c) = false

unfoldable pub at_start : Matcher
at_start c k = elim (is_none c.before) [ true ↦ k c | false ↦ none ]

unfoldable pub at_end : Matcher
at_end c k = elim c.rest [ [] ↦ k c | x ∷ s ↦ none ]

-- a group whose text the rest of the expression uses
unfoldable pub capture : Matcher → (Text → Matcher) → Matcher
capture m f c k = m c (λ c'. f (take (length c.rest - length c'.rest) c.rest) c' k)

-- how far a match at a place reaches; 0 if there is none
unfoldable pub match_length : Matcher → Option ℕ → Text → ℕ
match_length m before s = elim (m (record { before = before; rest = s }) (λ e. some e)) [
  | none ↦ 0
  | some e ↦ length s - length e.rest
]

test_from : Matcher → Option ℕ → Text → Bool
test_from m before [] = elim (m (record { before = before; rest = [] }) (λ e. some e)) [
  | some e ↦ true
  | none ↦ false
]
test_from m before (x ∷ s) = elim (m (record { before = before; rest = x ∷ s }) (λ e. some e)) [
  | some e ↦ true
  | none ↦ test_from m (some x) s
]

-- `re.test(text)`
unfoldable pub test : Matcher → Text → Bool
unfolding test_from
test m s = test_from m none s

-- `text.replace(re, (m) => " ".repeat(m.length))` under the flag `g`; `skip` counts the units left of a
-- match
blank_from : Matcher → ℕ → Option ℕ → Text → Text
blank_from m skip before [] = []
blank_from m (suc skip) before (x ∷ s) = b' ' ∷ blank_from m skip (some x) s
blank_from m zero before (x ∷ s) =
    let n = match_length m before (x ∷ s) in
    let kept = x ∷ blank_from m zero (some x) s in
    let blanked = b' ' ∷ blank_from m (n - 1) (some x) s in if n == 0 then kept else blanked

unfoldable pub blank_matches : Matcher → Text → Text
unfolding blank_from match_length
blank_matches m s = blank_from m zero none s

-- Unfolding this one opens every matcher, for a test that runs an expression.
unfoldable pub expressions : Unit {0}
unfolding unit ◌⨟◌ either optional many some_of lazy_many literal literal_i is_word is_decimal
    is_line_end dot word_boundary at_start at_end capture test blank_matches
expressions = tt
