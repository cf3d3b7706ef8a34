-- ===== src/Precall/Rules.antt =====
-- `matchQuietPattern`: the quiet flag of a single command (tool-precall.ts).
use ctxlite.Prelude.{
  Bool, ◌&&◌, ◌||◌, not, Option, none, some, List, [], ◌∷◌, ◌++◌, Text, str, text_eq, if◌then◌else◌,
  any, includes, ends_with, trim_end, is_space,
}
use ctxlite.Regex.{
  Matcher, unit, ◌⨟◌, either, optional, some_of, literal, literal_i, is_word, word_boundary, test,
}
use ctxlite.Prelude.{String}

unfoldable pub has_flag : Text → List Text → Bool
has_flag command flags = any (includes command) flags

unfoldable pub append_flag : Text → Text → Text
append_flag command flag =
    let trimmed = trim_end command in
    if ends_with trimmed flag || includes trimmed (flag ++ str " ")
    then command
    else trimmed ++ (str " " ++ flag)

-- One branch of the ladder: the test of the skeleton, the flags that are in the way, the flag to add
-- and the label.
pub record Rule : Type 0 where
  pub pattern : Text → Bool
  pub unless : List Text
  pub flag : Text
  pub label : Text

-- `\s+`, `\bword`, `word\b`
gap : Matcher
gap = some_of (unit is_space)

word : String → Matcher
word w = literal (str w)

-- `\bA\s+B\b`
two_words : Matcher → Matcher → Matcher
two_words m n = word_boundary ⨟ m ⨟ gap ⨟ n ⨟ word_boundary

one_word : String → Matcher
one_word w = word_boundary ⨟ word w ⨟ word_boundary

words : List String → Matcher
words [] = word ""
words (w ∷ []) = word w
words (w ∷ v ∷ ws) = either (word w) (words (v ∷ ws))

-- `\bnpm\s+(run\s+)?word\b`
npm_run : String → Matcher
npm_run w = two_words (word "npm") (optional (word "run" ⨟ gap) ⨟ word w)

-- `\b(a|b)(\.x|\.y)?\s+\S` under the flag `i`
wrapper : Text → Text → Matcher → Matcher
wrapper a b suffix =
    word_boundary
    ⨟ either (literal_i a) (literal_i b)
    ⨟ optional suffix
    ⨟ gap
    ⨟ unit (λ c. not (is_space c))

rule : Matcher → List Text → String → String → Rule
rule m unless flag label = record {
  pattern = test m;
  unless = unless;
  flag = str flag;
  label = str label;
}

unfoldable pub quiet_rules : List Rule
unfolding rule npm_run two_words one_word words word gap wrapper
quiet_rules =
    rule (npm_run "test") (str "--silent" ∷ str "--quiet" ∷ str "--loglevel silent" ∷ []) "--silent"
      "npm_test"
    ∷ rule (npm_run "build") (str "--loglevel" ∷ str "--silent" ∷ []) "--loglevel=warn" "npm_build"
    ∷ rule (two_words (word "pnpm") (word "test")) (str "--reporter=dot" ∷ str "--silent" ∷ [])
        "--reporter=dot" "npm_test"
    ∷ rule (two_words (word "yarn") (word "test")) (str "--silent" ∷ []) "--silent" "npm_test"
    ∷ rule (two_words (word "cargo") (word "test")) (str "--quiet" ∷ str "-q" ∷ []) "--quiet"
        "cargo_test"
    ∷ rule (two_words (word "cargo") (words ("build" ∷ "run" ∷ "check" ∷ "bench" ∷ [])))
        (str "--quiet" ∷ str "-q" ∷ []) "--quiet" "cargo_build"
    ∷ rule (two_words (word "dotnet") (words ("build" ∷ "test" ∷ "restore" ∷ "publish" ∷ [])))
        (str "--verbosity" ∷ str "-v" ∷ []) "--verbosity quiet" "dotnet"
    ∷ rule (one_word "pytest") (str "-q" ∷ str "--quiet" ∷ str "-v" ∷ []) "-q" "pytest"
    ∷ rule (two_words (word "python") (word "-m" ⨟ gap ⨟ word "pytest"))
        (str "-q" ∷ str "--quiet" ∷ []) "-q" "pytest"
    ∷ rule (two_words (word "npm") (words ("install" ∷ "ci" ∷ [])))
        (str "--loglevel" ∷ str "--silent" ∷ []) "--loglevel=warn" "npm_install"
    ∷ rule (two_words (words ("pip" ∷ "pip3" ∷ [])) (word "install"))
        (str "-q" ∷ str "--quiet" ∷ str "-v" ∷ []) "-q" "pip_install"
    ∷ rule (two_words (word "composer") (words ("install" ∷ "update" ∷ [])))
        (str "--quiet" ∷ str "-v" ∷ []) "--quiet" "composer_install"
    ∷ rule (two_words (word "bundle") (word "install")) (str "--quiet" ∷ str "-v" ∷ []) "--quiet"
        "bundle_install"
    ∷ rule
        (wrapper (str "mvn") (str "mvnw")
          (either (literal_i (str ".cmd")) (literal_i (str ".bat"))))
        (str "-q" ∷ str "--quiet" ∷ str "-X" ∷ str "--debug" ∷ str "-v" ∷ []) "-q" "maven"
    ∷ rule (wrapper (str "gradle") (str "gradlew") (literal_i (str ".bat")))
        (str "-q" ∷ str "--quiet" ∷ str "--debug" ∷ str "-v" ∷ []) "-q" "gradle"
    ∷ rule (word_boundary ⨟ word "make" ⨟ gap ⨟ unit is_word) (str "-s" ∷ str "--silent" ∷ []) "-s"
        "make"
    ∷ rule (two_words (word "vite") (word "build")) (str "--logLevel" ∷ str "--debug" ∷ [])
        "--logLevel warn" "vite_build"
    ∷ rule (two_words (word "docker" ⨟ optional (gap ⨟ word "compose")) (word "logs"))
        (str "--tail" ∷ str "-n" ∷ []) "--tail=80" "docker_logs"
    ∷ rule (one_word "curl") (str "-s" ∷ str "--silent" ∷ str "-S" ∷ []) "-sS" "curl"
    ∷ record {
      pattern = λ s. test (one_word "vitest") s && not (test (one_word "watch") s);
      unless = str "--reporter" ∷ str "-r " ∷ [];
      flag = str "--reporter=dot";
      label = str "vitest_run";
    }
    ∷ rule (one_word "jest") (str "--silent" ∷ []) "--silent" "jest_test"
    ∷ rule (one_word "eslint") (str "--quiet" ∷ []) "--quiet" "eslint_lint"
    ∷ []

-- The first branch whose condition holds.
unfoldable pub first_rule : List Rule → Text → Text → Option Rule
first_rule [] skeleton segment = none
first_rule (r ∷ rs) skeleton segment =
    let rest = first_rule rs skeleton segment in
    if r.pattern skeleton && not (has_flag segment r.unless) then some r else rest

pub record SegmentMatch : Type 0 where
  pub command : Text
  pub label : Text

unfoldable pub apply_rule : Option Rule → Text → Option SegmentMatch
apply_rule none segment = none
apply_rule (some r) segment =
    if text_eq (append_flag segment r.flag) segment
    then none
    else some (record { command = append_flag segment r.flag; label = r.label })

unfoldable pub match_quiet_pattern : Text → Text → Option SegmentMatch
match_quiet_pattern skeleton segment = apply_rule (first_rule quiet_rules skeleton segment) segment
