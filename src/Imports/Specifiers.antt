-- ===== src/Imports/Specifiers.antt =====
-- About the texts that an import can be (imports.ts).
use mathlib.Core.Path.{subst}
use ctxlite.Prelude.{
  ℕ, zero, suc, ◌-◌, ◌≡◌, refl, Bool, true, false, ◌||◌, Option, none, some, List, [], ◌∷◌, arith,
  Text, str, text_eq, text_eq_refl, length, Dict, dict_set, All, ◌==◌,
}
use ctxlite.Imports.{
  behind, skip_blanks, first_of, skip_name, add_match, add_imports, CodeFile, quoted_path,
  script_import, go_import, python_import, rust_import, import_pattern, find_imports, imports_of,
  graph_from,
}
use ctxlite.Prelude.{◌>>=◌}
use ctxlite.Prelude.{if-either}

abbrev pub is_dotted : Text → Bool
is_dotted [] = false
is_dotted (c ∷ t) = c == b'.'

-- A text that an import can be: it begins with a dot, or is the `super` or `self` of Rust.
unfoldable pub is_specifier : Text → Bool
is_specifier t = is_dotted t || text_eq t (str "super") || text_eq t (str "self")

-- What a pattern finds at a place is a specifier.
abbrev Finds : Option (Text × Text) → Type 0
Finds o = (imp rest : Text) → o ≡ some (imp, rest) → is_specifier imp ≡ true

quoted_path-Finds : (s : Text) → Finds (quoted_path s)
unfolding quoted_path is_specifier
quoted_path-Finds s imp rest h = ground (arith, h)

>>=-Finds :
    {A : Type 0} (m : Option A) (f : A → Option (Text × Text))
    → ((a : A) → Finds (f a))
    → Finds (m >>= f)
>>=-Finds none f h imp rest e = cc
>>=-Finds (some a) f h imp rest e = h a imp rest e

-- a quoted path behind blanks, with what may stand between them
skip_blanks-Finds :
    (skip : Text → Text) (s : Text) → Finds (skip_blanks s >>= λ rest. quoted_path (skip rest))
skip_blanks-Finds skip s =
    >>=-Finds (skip_blanks s) (λ rest. quoted_path (skip rest))
      (λ rest. quoted_path-Finds (skip rest))

script_import-Finds : (s : Text) → Finds (script_import s)
unfolding script_import
script_import-Finds s =
    >>=-Finds (first_of (behind (str "import") s) (behind (str "from") s))
      (λ keyword. skip_blanks keyword >>= λ rest. quoted_path rest)
      (λ keyword. skip_blanks-Finds (λ rest. rest) keyword)

go_import-Finds : (s : Text) → Finds (go_import s)
unfolding go_import
go_import-Finds s =
    >>=-Finds (behind (str "import") s)
      (λ keyword. skip_blanks keyword >>= λ rest. quoted_path (skip_name rest))
      (λ keyword. skip_blanks-Finds skip_name keyword)

python_import-Finds : (s : Text) → Finds (python_import s)
unfolding python_import is_specifier
python_import-Finds s imp rest h = ground (arith, h)

rust_import-Finds : (s : Text) → Finds (rust_import s)
unfolding rust_import is_specifier
rust_import-Finds s imp rest h =
    ground (arith, h, text_eq_refl (str "super"), text_eq_refl (str "self"))

abbrev AllFind : Option (Text → Option (Text × Text)) → Type 0
AllFind o =
    (pattern : Text → Option (Text × Text)) → o ≡ some pattern → (s : Text) → Finds (pattern s)

AllFind-some : (q : Text → Option (Text × Text)) → ((s : Text) → Finds (q s)) → AllFind (some q)
AllFind-some q h pattern e =
    let same : q ≡ pattern = cc e in
    subst (λ (p : Text → Option (Text × Text)). (s : Text) → Finds (p s)) same h

import_pattern-AllFind : (language : Text) → AllFind (import_pattern language)
unfolding import_pattern
import_pattern-AllFind language =
    if-either AllFind (text_eq language (str "typescript") || text_eq language (str "javascript")) _
      _ (λ e. AllFind-some script_import script_import-Finds)
      (λ e.
        if-either AllFind (text_eq language (str "go")) _ _
          (λ e. AllFind-some go_import go_import-Finds)
          (λ e.
            if-either AllFind (text_eq language (str "python")) _ _
              (λ e. AllFind-some python_import python_import-Finds)
              (λ e.
                if-either AllFind (text_eq language (str "rust")) _ _
                  (λ e. AllFind-some rust_import rust_import-Finds) (λ e p h. cc))))

abbrev pub AllSpecifiers : List Text → Type 0
AllSpecifiers = All (λ imp. is_specifier imp ≡ true)

add_match-AllSpecifiers :
    (o : Option (Text × Text)) (units : ℕ) (imports : ℕ → List Text)
    → Finds o
    → ((skip : ℕ) → AllSpecifiers (imports skip))
    → AllSpecifiers (add_match o units imports)
add_match-AllSpecifiers none units imports h k = k 0
add_match-AllSpecifiers (some (imp, rest)) units imports h k =
    (h imp rest refl, k (units - length rest))

find_imports-AllSpecifiers :
    (pattern : Text → Option (Text × Text)) (skip : ℕ) (s : Text)
    → ((t : Text) → Finds (pattern t))
    → AllSpecifiers (find_imports pattern skip s)
unfolding find_imports
find_imports-AllSpecifiers pattern skip [] h = tt
find_imports-AllSpecifiers pattern (suc skip) (c ∷ s) h =
    find_imports-AllSpecifiers pattern skip s h
find_imports-AllSpecifiers pattern zero (c ∷ s) h =
    add_match-AllSpecifiers (pattern (c ∷ s)) (length s) (λ skip. find_imports pattern skip s)
      (h (c ∷ s)) (λ skip. find_imports-AllSpecifiers pattern skip s h)

imports_of-AllSpecifiers : (file : CodeFile) → AllSpecifiers (imports_of file)
unfolding imports_of
imports_of-AllSpecifiers file =
    elim (import_pattern file.language)
        as (λ o.
          AllFind o
          → AllSpecifiers
              (elim o [ none ↦ [] | some pattern ↦ find_imports pattern 0 file.content ])) [
                | none ↦ λ h. tt
                | some pattern ↦
                    λ h. find_imports-AllSpecifiers pattern 0 file.content (h pattern refl)
              ]
      (import_pattern-AllFind file.language)

-- The graph has specifiers only.
abbrev pub GraphSpecifiers : Dict (List Text) → Type 0
GraphSpecifiers = All (λ (path, imps). AllSpecifiers imps)

pub dict_set-All :
    {V : Type 0} (P : Text × V → Type 0) (k : Text) (v : V) (m : Dict V)
    → P (k, v)
    → ((j : Text) (w : V) → P (j, w) → P (j, v))
    → All P m
    → All P (dict_set k v m)
unfolding dict_set
dict_set-All P k v [] h g a = (h, tt)
dict_set-All P k v ((j, w) ∷ m) h g (p, a) =
    if-either (All P) (text_eq j k) _ _ (λ e. (g j w p, a)) (λ e. (p, dict_set-All P k v m h g a))

pub graph_from-GraphSpecifiers :
    (files : List CodeFile) (graph : Dict (List Text))
    → GraphSpecifiers graph
    → GraphSpecifiers (graph_from files graph)
unfolding graph_from
graph_from-GraphSpecifiers [] graph h = h
graph_from-GraphSpecifiers (file ∷ files) graph h = graph_from-GraphSpecifiers files _ (
    elim (imports_of file)
        as (λ imps. AllSpecifiers imps → GraphSpecifiers (add_imports file.path imps graph)) [
          | [] ↦ λ k. h
          | imp ∷ imps ↦ λ k. dict_set-All _ file.path (imp ∷ imps) graph k (λ j w p. k) h
        ]
      (imports_of-AllSpecifiers file))
