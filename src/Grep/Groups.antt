-- ===== src/Grep/Groups.antt =====
-- About the groups that grep's lines are gathered in (grep-output-compress.ts).
use ctxlite.Prelude.{
  ◌≡◌, refl, sym, ap, ◌∙◌, inl, inr, Bool, true, false, Option, none, some, List, [], ◌∷◌, ◌++◌,
  append_assoc, append-nil, arith, Text, text_eq, text_eq_iff, Dict, dict_get, get-set, filter_by,
  if◌then◌else◌, Bool-cases, lines_of,
}
use ctxlite.Grep.{file_of, lines_so_far, add_line, group_from, group_lines}

-- The line is a match in this file.
abbrev pub is_match_in : Text → Option Text → Bool
is_match_in file none = false
is_match_in file (some f) = text_eq f file

unfoldable pub matches_in : Text → Text → Bool
matches_in file line = is_match_in file (file_of line)

lines-if :
    (b : Bool) (o p : Option (List Text))
    → lines_so_far (if b then o else p) ≡ (if b then lines_so_far o else lines_so_far p)
lines-if true o p = refl
lines-if false o p = refl

get-add_line :
    (file line : Text) (o : Option Text) (groups : Dict (List Text))
    → lines_so_far (dict_get file (add_line o line groups))
      ≡ lines_so_far (dict_get file groups) ++ (if is_match_in file o then line ∷ [] else [])
unfolding add_line
get-add_line file line none groups = sym (append-nil (lines_so_far (dict_get file groups)))
get-add_line file line (some f) groups = elim (Bool-cases (text_eq f file)) [
  | inl e ↦
      rw (get-set f file (lines_so_far (dict_get f groups) ++ line ∷ []) groups, e)
        (ap (λ (k : Text). lines_so_far (dict_get k groups) ++ line ∷ [])
          ((text_eq_iff f file).0 e))
  | inr e ↦
      rw (get-set f file (lines_so_far (dict_get f groups) ++ line ∷ []) groups, e)
        (sym (append-nil (lines_so_far (dict_get file groups))))
]

filter-cons :
    (p : Text → Bool) (line : Text) (lines : List Text)
    → (if p line then line ∷ [] else []) ++ filter_by p lines ≡ filter_by p (line ∷ lines)
unfolding filter_by
filter-cons p line lines = ground arith

get-group_from :
    (file : Text) (lines : List Text) (groups : Dict (List Text))
    → lines_so_far (dict_get file (group_from lines groups))
      ≡ lines_so_far (dict_get file groups) ++ filter_by (matches_in file) lines
unfolding group_from matches_in
get-group_from file [] groups =
    unfold filter_by in sym (append-nil (lines_so_far (dict_get file groups)))
get-group_from file (line ∷ lines) groups =
    let old = lines_so_far (dict_get file groups) in
    let own = if matches_in file line then line ∷ [] else [] in
    get-group_from file lines (add_line (file_of line) line groups)
    ∙ ap (λ (l : List Text). l ++ filter_by (matches_in file) lines)
        (get-add_line file line (file_of line) groups)
    ∙ append_assoc old own (filter_by (matches_in file) lines)
    ∙ ap (λ (l : List Text). old ++ l) (filter-cons (matches_in file) line lines)

-- The group of a file has exactly the lines of the text that are matches in this file, in their order;
-- a file without a match has no line.
pub group_lines-filter :
    (file text : Text)
    → lines_so_far (dict_get file (group_lines text)) ≡ filter_by (matches_in file) (lines_of text)
unfolding group_lines
group_lines-filter file text = get-group_from file (lines_of text) [] ∙ unfold dict_get in refl
