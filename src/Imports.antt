-- ===== src/Imports.antt =====
-- packages/core/src/imports.ts: the imports of files and the boosts of their scores. Each expression is
-- a scanner: where one of its repetitions ends is decided by the next unit, so that backtracking finds
-- nothing else.
pub mod Specifiers
use ctxlite.Prelude.{
  ℕ, zero, suc, ◌+◌, ◌-◌, ◌*◌, ◌/◌, ◌%◌, ◌≤◌, ◌<◌, min, max, String, ◌≡◌, refl, sym, ap, ap₂, ◌∙◌,
  ◌≢◌, ◌↔◌, ◌⊎◌, inl, inr, Bool, true, false, ◌&&◌, ◌||◌, not, Option, none, some, List, [], ◌∷◌,
  ◌++◌, map, append_assoc, append-nil, map-append, arith, Text, str, text_eq, text_eq_iff,
  text_eq_refl, length, length-append, join, Dict, dict_get, dict_set, dict_delete, get-set,
  get-delete, or_else, slice, take, drop, filter_by, any, all, All, trim_end, starts_with,
  ends_with, includes, ltb, leb, ◌==◌, if◌then◌else◌, Option-cases, Bool-cases, print_nat,
  round_seven_tenths, lines_of, unlines, lower_unit, length-take, length-drop, take-append-drop,
}
use ctxlite.Runtime.{Runtime}
use ctxlite.Regex.{is_word}
use ctxlite.Prelude.{is_space, ◌>>=◌}

pub record CodeFile : Type 0 where
  pub path : Text
  pub content : Text
  pub language : Text
  pub tokens : ℕ

abbrev take_unit : ℕ → Text × Text → Text × Text
take_unit c (taken, rest) = (c ∷ taken, rest)

-- the units that satisfy a test, and the rest
unfoldable pub span : (ℕ → Bool) → Text → Text × Text
span p [] = ([], [])
span p (c ∷ s) = let longer = take_unit c (span p s) in if p c then longer else ([], c ∷ s)

-- the rest behind a literal
unfoldable pub behind : Text → Text → Option Text
behind literal s = if starts_with s literal then some (drop (length literal) s) else none

abbrev not_empty : Text × Text → Option (Text × Text)
not_empty ([], rest) = none
not_empty (c ∷ taken, rest) = some (c ∷ taken, rest)

-- `p+`
unfoldable pub some_units : (ℕ → Bool) → Text → Option (Text × Text)
unfolding span
some_units p s = not_empty (span p s)

-- `\s+`
unfoldable pub skip_blanks : Text → Option Text
unfolding some_units is_space
skip_blanks s = some_units is_space s >>= λ (taken, rest). some rest

abbrev pub is_quote : ℕ → Bool
is_quote c = c == b'\'' || c == b'"'

-- a unit that satisfies a test
abbrev one_unit : (ℕ → Bool) → Text → Option Text
one_unit p [] = none
one_unit p (c ∷ s) = if p c then some s else none

-- `['"](\.[^'"]+)['"]`
unfoldable pub quoted_path : Text → Option (Text × Text)
unfolding some_units
quoted_path s = do
  inside ← one_unit is_quote s
  dotted ← one_unit (λ c. c == b'.') inside
  (taken, rest) ← some_units (λ c. not (is_quote c)) dotted
  end ← one_unit is_quote rest
  some (b'.' ∷ taken, end)

abbrev pub first_of : {A : Type 0} → Option A → Option A → Option A
first_of none o = o
first_of (some a) o = some a

-- `/(?:import|from)\s+['"](\.[^'"]+)['"]/`
unfoldable pub script_import : Text → Option (Text × Text)
unfolding behind skip_blanks quoted_path
script_import s = do
  keyword ← first_of (behind (str "import") s) (behind (str "from") s)
  rest ← skip_blanks keyword
  quoted_path rest

-- `(?:[\w]+\s+)?`
unfoldable pub skip_name : Text → Text
unfolding skip_blanks some_units
skip_name s = or_else (some_units is_word s >>= λ (name, rest). skip_blanks rest) s

-- `/import\s+(?:[\w]+\s+)?["'](\.[^"']+)["']/`
unfoldable pub go_import : Text → Option (Text × Text)
unfolding behind skip_blanks skip_name quoted_path is_word
go_import s = do
  keyword ← behind (str "import") s
  rest ← skip_blanks keyword
  quoted_path (skip_name rest)

-- `/from\s+(\.[^\s]+)\s+import/`
unfoldable pub python_import : Text → Option (Text × Text)
unfolding behind skip_blanks some_units
python_import s = do
  keyword ← behind (str "from") s
  rest ← skip_blanks keyword
  dotted ← one_unit (λ c. c == b'.') rest
  (taken, rest') ← some_units (λ c. not (is_space c)) dotted
  last ← skip_blanks rest'
  end ← behind (str "import") last
  some (b'.' ∷ taken, end)

abbrev capture_word : Text → Text → Option (Text × Text)
capture_word word s = behind word s >>= λ rest. some (word, rest)

-- `/(?:use|mod)\s+(super|self)::[^\s;]+/`
unfoldable pub rust_import : Text → Option (Text × Text)
unfolding behind skip_blanks some_units
rust_import s = do
  keyword ← first_of (behind (str "use") s) (behind (str "mod") s)
  rest ← skip_blanks keyword
  (word, rest') ← first_of (capture_word (str "super") rest) (capture_word (str "self") rest)
  tail ← behind (str "::") rest'
  (taken, end) ← some_units (λ c. not (is_space c || c == b';')) tail
  some (word, end)

-- `IMPORT_PATTERNS[language]`
unfoldable pub import_pattern : Text → Option (Text → Option (Text × Text))
import_pattern language =
    if text_eq language (str "typescript") || text_eq language (str "javascript")
    then some script_import
    else if text_eq language (str "go")
    then some go_import
    else if text_eq language (str "python")
    then some python_import
    else if text_eq language (str "rust")
    then some rust_import
    else none

-- A match, if there is one, and the imports behind it: `units` units follow the first of the match,
-- and the search goes on behind its last.
abbrev pub add_match : Option (Text × Text) → ℕ → (ℕ → List Text) → List Text
add_match none units imports = imports 0
add_match (some (imp, rest)) units imports = imp ∷ imports (units - length rest)

-- The loop of `exec`: the matches from left to right; the first `skip` units belong to the last match.
unfoldable pub find_imports : (Text → Option (Text × Text)) → ℕ → Text → List Text
find_imports pattern skip [] = []
find_imports pattern (suc skip) (c ∷ s) = find_imports pattern skip s
find_imports pattern zero (c ∷ s) =
    add_match (pattern (c ∷ s)) (length s) (λ skip. find_imports pattern skip s)

unfoldable pub imports_of : CodeFile → List Text
unfolding find_imports import_pattern
imports_of file = elim (import_pattern file.language) [
  | none ↦ []
  | some pattern ↦ find_imports pattern 0 file.content
]

abbrev pub add_imports : Text → List Text → Dict (List Text) → Dict (List Text)
add_imports path [] graph = graph
add_imports path (imp ∷ imps) graph = dict_set path (imp ∷ imps) graph

unfoldable pub graph_from : List CodeFile → Dict (List Text) → Dict (List Text)
graph_from [] graph = graph
graph_from (file ∷ files) graph = graph_from files (add_imports file.path (imports_of file) graph)

unfoldable pub build_import_graph : List CodeFile → Dict (List Text)
unfolding graph_from imports_of
build_import_graph files = graph_from files []

module _ (rt : Runtime) where
  open rt use {Double, of_nat, ratio, add, mul, le}

  -- `boosts.set(dep, (boosts.get(dep) ?? 0) + importerScore * BOOST_FACTOR)`
  unfoldable pub boost_all : Double → List Text → Dict Double → Dict Double
  boost_all score [] boosts = boosts
  boost_all score (dep ∷ deps) boosts = boost_all score deps (
      dict_set dep (add (or_else (dict_get dep boosts) (of_nat 0)) (mul score (ratio 3 10))) boosts)

  unfoldable pub boosts_from : Dict Double → Dict (List Text) → Dict Double → Dict Double
  unfolding boost_all
  boosts_from scores [] boosts = boosts
  boosts_from scores ((importer, imported) ∷ graph) boosts =
      let score = or_else (dict_get importer scores) (of_nat 0) in
      boosts_from scores graph
        (if le score (of_nat 0) then boosts else boost_all score imported boosts)

  unfoldable pub calculate_import_boosts : Dict (List Text) → Dict Double → Dict Double
  unfolding boosts_from
  calculate_import_boosts graph scores = boosts_from scores graph []
